-- ===== src/Drivers/Wrapped/Once.antt =====
-- A driver's name in front of its own message.
use mathlib.Core.Option.{some-injective}
use mathlib.Core.Path.{ap₂}
use usql.Base.{
  append-nil, ◌≢◌, same, Bool-cases, Option-cases, inl, inr, ==_iff, ℕ, ◌≡◌, refl, sym, ap, ◌∙◌,
  Bool, true, false, Option, none, some, [], ◌∷◌, ◌++◌, ◌==◌, if◌then◌else◌, Runes, codes,
  append_assoc, arith,
}
use usql.Stmt.Rune.{is_space}
use usql.Drivers.Wrapped.{
  DriverError, NamedDriver, trim_left, unless_space, trim_right, cut_prefix, or_whole, trim_prefix,
  chop, shown, with_code, known_text, driver_text, error_text,
}

-- A text that begins and ends in no space.
pub data IsTrimmed : Runes → Type 0 where
  trimmed :
      {c : ℕ} {s : Runes} (t : Runes) (d : ℕ)
      → is_space c ≡ false
      → is_space d ≡ false
      → c ∷ s ≡ t ++ d ∷ []
      → IsTrimmed (c ∷ s)

-- The text is the message, or the message behind the name.
pub data Says (n m : Runes) : Runes → Type 0 where
  bare : Says n m m
  named : Says n m (n ++ codes ": " ++ m)

-- The code behind a colon, if there is one.
abbrev pub coded : Runes → Runes
coded [] = []
coded (c ∷ code) = codes ": " ++ (c ∷ code)

with_code_lem : (n code : Runes) → with_code n code ≡ n ++ coded code
unfolding with_code
with_code_lem n [] = sym (append-nil n)
with_code_lem n (c ∷ code) = append_assoc n (codes ": ") (c ∷ code)

cut_prefix-some : (p s t : Runes) → cut_prefix p s ≡ some t → s ≡ p ++ t
unfolding cut_prefix
cut_prefix-some [] s t e = some-injective s t e
cut_prefix-some (c ∷ p) [] t e = absurd (ground (arith, e))
cut_prefix-some (c ∷ p) (d ∷ s) t e = elim (Bool-cases (c == d)) [
  | inl here ↦
      ap₂ (λ (x : ℕ) (xs : Runes). x ∷ xs) (sym ((==_iff c d).0 here))
        (cut_prefix-some p s t (rw here at e))
  | inr no! ↦ absurd (ground (arith, rw no! at e))
]

-- The message does not begin in the name and a colon.
abbrev pub IsUnnamed : Runes → Runes → Type 0
IsUnnamed n m = (t : Runes) → m ≢ (n ++ codes ":") ++ t

uncut : (n m : Runes) → IsUnnamed n m → cut_prefix (n ++ codes ":") m ≡ none
uncut n m h = elim (Option-cases (cut_prefix (n ++ codes ":") m)) [
  | inl e ↦ e
  | inr (t, e) ↦ absurd (h t (cut_prefix-some (n ++ codes ":") m t e))
]

unless_space_more :
    (x : ℕ) (xs : Runes) (c : ℕ) (s : Runes) → unless_space x (xs ++ c ∷ s) ≡ x ∷ xs ++ c ∷ s
unfolding unless_space
unless_space_more x [] c s = refl
unless_space_more x (y ∷ xs) c s = refl

trim_right_more :
    (xs : Runes) (c : ℕ) (s : Runes)
    → trim_right (c ∷ s) ≡ c ∷ s
    → trim_right (xs ++ c ∷ s) ≡ xs ++ c ∷ s
unfolding trim_right
trim_right_more [] c s h = h
trim_right_more (x ∷ xs) c s h =
    ap (unless_space x) (trim_right_more xs c s h) ∙ unless_space_more x xs c s

trimmed_right :
    (s : Runes) (t : Runes) (d : ℕ) → is_space d ≡ false → s ≡ t ++ d ∷ [] → trim_right s ≡ s
trimmed_right s t d h is =
    ap trim_right is ∙ trim_right_more t d [] (unfold trim_right unless_space in rw h refl) ∙ sym is

trim_left_stays : (c : ℕ) (s : Runes) → is_space c ≡ false → trim_left (c ∷ s) ≡ c ∷ s
unfolding trim_left
trim_left_stays c s h = ap (λ (b : Bool). if b then trim_left s else c ∷ s) h

same_rune : (c : ℕ) → (c == c) ≡ true
same_rune c = ground arith

cut_prefix_front : (p s : Runes) → cut_prefix p (p ++ s) ≡ some s
unfolding cut_prefix
cut_prefix_front [] s = refl
cut_prefix_front (c ∷ p) s =
    ap (λ (b : Bool). if b then cut_prefix p (p ++ s) else none) (same_rune c)
    ∙ cut_prefix_front p s

chop_bare : (n m : Runes) → IsTrimmed m → cut_prefix (n ++ codes ":") m ≡ none → chop m n ≡ m
unfolding chop trim_prefix or_whole
chop_bare n [] x e = elim x [ ]
chop_bare n (c ∷ s) (IsTrimmed.trimmed w d h k is) e =
    let t = trimmed_right (c ∷ s) w d k is in
    ap (λ x. trim_left (trim_prefix (trim_left x) (n ++ codes ":"))) t
    ∙ ap (λ x. trim_left (trim_prefix x (n ++ codes ":"))) (trim_left_stays c s h)
    ∙ ap (λ x. trim_left (or_whole (c ∷ s) x)) e
    ∙ trim_left_stays c s h

trim_left_space : (s : Runes) → trim_left (b' ' ∷ s) ≡ trim_left s
unfolding trim_left is_space
trim_left_space s = refl

chop_named :
    (x : ℕ) (n m : Runes)
    → is_space x ≡ false
    → IsTrimmed m
    → chop ((x ∷ n) ++ codes ": " ++ m) (x ∷ n) ≡ m
unfolding chop trim_prefix or_whole
chop_named x n [] hx t = elim t [ ]
chop_named x n (c ∷ s) hx (IsTrimmed.trimmed w d h k is) =
    let t = trimmed_right (c ∷ s) w d k is in
    let m = c ∷ s in
    let p = x ∷ n ++ codes ":" in
    ap (λ y. trim_left (trim_prefix (trim_left (trim_right y)) p))
      (append_assoc (x ∷ n) (codes ": ") m)
    ∙ ap (λ y. trim_left (trim_prefix (trim_left y) p))
        (trim_right_more (x ∷ n) b':' (b' ' ∷ m) (trim_right_more (codes ": ") c s t))
    ∙ ap (λ y. trim_left (trim_prefix y p)) (trim_left_stays x (n ++ (codes ": " ++ m)) hx)
    ∙ ap (λ y. trim_left (trim_prefix y p)) (sym (append_assoc (x ∷ n) (codes ":") (b' ' ∷ m)))
    ∙ ap (λ y. trim_left (or_whole (p ++ b' ' ∷ m) y)) (cut_prefix_front p (b' ' ∷ m))
    ∙ trim_left_space m
    ∙ trim_left_stays c s h

chop_says :
    (x : ℕ) (n m y : Runes)
    → is_space x ≡ false
    → IsTrimmed m
    → IsUnnamed (x ∷ n) m
    → Says (x ∷ n) m y
    → chop y (x ∷ n) ≡ m
chop_says x n m y hx t free Says.bare = chop_bare (x ∷ n) m t (uncut (x ∷ n) m free)
chop_says x n m y hx t free Says.named = chop_named x n m hx t

shown_lem : (d name : Runes) → shown d name ≡ (if same name [] then d else name)
unfolding shown
shown_lem d [] = refl
shown_lem d (c ∷ name) = refl

module _ (other_text : ℕ → Runes) (drivers : Runes → Option NamedDriver) where
  -- The name that stands for a driver, and the code and the message of an error inside its own.
  abbrev pub name_of : Runes → Option NamedDriver → Runes
  name_of d none = d
  name_of d (some k) = if same k.name [] then d else k.name

  abbrev pub reported : Option (DriverError → Runes × Runes) → DriverError → Runes × Runes
  reported none e = ([], error_text other_text drivers e)
  reported (some err) e = err e

  abbrev pub reported_by : Option NamedDriver → DriverError → Runes × Runes
  reported_by none e = reported none e
  reported_by (some k) e = reported k.err e

  known_text-once :
      (err : Option (DriverError → Runes × Runes)) (e : DriverError) (x : ℕ) (n m : Runes)
      → is_space x ≡ false
      → IsTrimmed m
      → IsUnnamed (x ∷ n) m
      → Says (x ∷ n) m (reported err e).1
      → known_text (x ∷ n) err e (error_text other_text drivers e)
        ≡ ((x ∷ n) ++ coded (reported err e).0) ++ codes ": " ++ m
  unfolding known_text with_code
  known_text-once none e x n m hx t free h =
      ap (λ y. (x ∷ n) ++ codes ": " ++ y) (chop_says x n m _ hx t free h)
      ∙ ap (λ y. y ++ codes ": " ++ m) (sym (append-nil (x ∷ n)))
  known_text-once (some err) e x n m hx t free h =
      ap (λ y. with_code (x ∷ n) (err e).0 ++ codes ": " ++ y) (chop_says x n m _ hx t free h)
      ∙ ap (λ y. y ++ codes ": " ++ m) (with_code_lem (x ∷ n) (err e).0)

  driver_text-once :
      (d : Runes) (k : Option NamedDriver) (e : DriverError) (x : ℕ) (n m : Runes)
      → name_of d k ≡ x ∷ n
      → is_space x ≡ false
      → IsTrimmed m
      → IsUnnamed (x ∷ n) m
      → Says (x ∷ n) m (reported_by k e).1
      → driver_text d k e (error_text other_text drivers e)
        ≡ ((x ∷ n) ++ coded (reported_by k e).0) ++ codes ": " ++ m
  unfolding driver_text known_text
  driver_text-once d none e x n m hn hx t free h =
      ap (λ y. known_text y none e (error_text other_text drivers e)) hn
      ∙ known_text-once none e x n m hx t free h
  driver_text-once d (some k) e x n m hn hx t free h =
      ap (λ y. known_text y k.err e (error_text other_text drivers e)) (shown_lem d k.name ∙ hn)
      ∙ known_text-once k.err e x n m hx t free h

  -- The text of a driver's error is the name, the code if there is one, and the message, whether the error's
  -- own text is the message or the message behind the name: a name in front is not printed twice. The name
  -- shown for the driver begins in no space, and the message begins and ends in none and does not itself
  -- begin in the name and a colon.
  pub error_text-once :
      (d : Runes) (e : DriverError) (x : ℕ) (n m : Runes)
      → name_of d (drivers d) ≡ x ∷ n
      → is_space x ≡ false
      → IsTrimmed m
      → IsUnnamed (x ∷ n) m
      → Says (x ∷ n) m (reported_by (drivers d) e).1
      → error_text other_text drivers (DriverError.wrapped d e)
        ≡ ((x ∷ n) ++ coded (reported_by (drivers d) e).0) ++ codes ": " ++ m
  unfolding error_text
  error_text-once d e = driver_text-once d (drivers d) e
