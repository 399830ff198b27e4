-- ===== src/Base/Cuts.antt =====
-- How `take`, `drop`, `get_or` and `copy` work on a list that is put together from parts.
use Prim.Native.Nat.{ℕ, zero, suc, ◌+◌, ◌≤◌}
use mathlib.Core.Path.{◌≡◌, refl, ap}
use mathlib.Core.List.{List, [], ◌∷◌, ◌++◌}
use native.Mathlib.Omega.{arith}
use usql.Base.Lists.{length, get_or, take, drop, copy}

pub zero_add : (k : ℕ) → 0 + k ≡ k
zero_add k = omega arith

pub suc_add : (a b : ℕ) → suc a + b ≡ suc (a + b)
suc_add a b = omega arith

module _ {ℓ} {A : Type ℓ} where
  pub take_append : (xs ys : List A) (n : ℕ) → take (length xs + n) (xs ++ ys) ≡ xs ++ take n ys
  take_append [] ys n = rw (zero_add n)
  take_append (x ∷ xs) ys n = rw (suc_add (length xs) n) (rw (take_append xs ys n))

  pub drop_append : (xs ys : List A) (n : ℕ) → drop (length xs + n) (xs ++ ys) ≡ drop n ys
  drop_append [] ys n = rw (zero_add n)
  drop_append (x ∷ xs) ys n = rw (suc_add (length xs) n) (drop_append xs ys n)

  pub take_all : (xs : List A) (n : ℕ) → length xs ≤ n → take n xs ≡ xs
  take_all [] zero h = refl
  take_all [] (suc n) h = refl
  take_all (x ∷ xs) zero h = absurd (omega arith)
  take_all (x ∷ xs) (suc n) h = rw (take_all xs n (omega arith))

  pub drop_all : (xs : List A) (n : ℕ) → length xs ≤ n → drop n xs ≡ []
  drop_all [] zero h = refl
  drop_all [] (suc n) h = refl
  drop_all (x ∷ xs) zero h = absurd (omega arith)
  drop_all (x ∷ xs) (suc n) h = drop_all xs n (omega arith)

  pub length-copy : (dst src : List A) → length (copy dst src) ≡ length dst
  length-copy [] src = refl
  length-copy (x ∷ dst) [] = refl
  length-copy (x ∷ dst) (y ∷ src) = ap suc (length-copy dst src)

  -- A copy over a part as long as the source.
  pub copy_over : (xs ys s : List A) → length xs ≡ length s → copy (xs ++ ys) s ≡ s ++ ys
  copy_over [] [] [] h = refl
  copy_over [] (y ∷ ys) [] h = refl
  copy_over [] ys (c ∷ s) h = absurd (omega arith)
  copy_over (x ∷ xs) ys [] h = absurd (omega arith)
  copy_over (x ∷ xs) ys (c ∷ s) h = rw (copy_over xs ys s (omega arith))

  -- What a copy writes first.
  pub take-copy :
      (dst b t : List A) → length b ≤ length dst → take (length b) (copy dst (b ++ t)) ≡ b
  take-copy dst [] t h = refl
  take-copy [] (c ∷ b) t h = absurd (omega arith)
  take-copy (x ∷ dst) (c ∷ b) t h = rw (take-copy dst b t (omega arith))

  pub get_or_at : (xs ys : List A) (d : A) → get_or (xs ++ ys) (length xs) d ≡ get_or ys 0 d
  get_or_at [] ys d = refl
  get_or_at (x ∷ xs) ys d = get_or_at xs ys d

  pub get_or-drop : (xs : List A) (i k : ℕ) (d : A) → get_or (drop i xs) k d ≡ get_or xs (i + k) d
  get_or-drop xs zero k d = rw (zero_add k)
  get_or-drop [] (suc i) k d = refl
  get_or-drop (x ∷ xs) (suc i) k d = rw (suc_add i k) (get_or-drop xs i k d)

  pub drop-drop : (xs : List A) (i k : ℕ) → drop k (drop i xs) ≡ drop (i + k) xs
  drop-drop xs zero k = rw (zero_add k)
  drop-drop [] (suc i) zero = rw (suc_add i 0)
  drop-drop [] (suc i) (suc k) = rw (suc_add i (suc k))
  drop-drop (x ∷ xs) (suc i) k = rw (suc_add i k) (drop-drop xs i k)
