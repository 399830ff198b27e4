-- ===== src/Metadata/Results/Read.antt =====
-- Reading a result set to its end gives the rows that pass the filter.
use mathlib.Core.Option
use usql.Base.{
  ℕ, zero, suc, ◌+◌, ◌-◌, ◌≤◌, ◌<◌, ◌≡◌, refl, sym, ◌∙◌, ap, Bool, true, false, ◌⊎◌, inl, inr,
  Option, none, some, List, [], ◌∷◌, ltb, leb, if◌then◌else◌, length, drop, arith, Bool-cases,
  drop-drop, length-drop,
}
use usql.Metadata.Results.{
  ResultSet, count, len, len_with, reset, skip, next_with, next, head, current_row,
}

leb-true : (a b : ℕ) → a ≤ b → leb a b ≡ true
leb-true a b h = ground arith

leb-false : (a b : ℕ) → b < a → leb a b ≡ false
leb-false a b h = ground arith

module _ {A : Type 0} where
  -- The rows that pass.
  abbrev pub passing : Option (A → Bool) → List A → List A
  passing none xs = xs
  passing (some f) [] = []
  passing (some f) (x ∷ xs) = if f x then x ∷ passing (some f) xs else passing (some f) xs

  -- `len` is their number.
  len_lem : (f : Option (A → Bool)) (xs : List A) → len_with xs f ≡ length (passing f xs)
  unfolding len_with count
  len_lem none xs = refl
  len_lem (some f) [] = refl
  len_lem (some f) (x ∷ xs) = elim (Bool-cases (f x)) [
    | inl yes! ↦ rw yes! (ap suc (len_lem (some f) xs))
    | inr no! ↦ rw no! (len_lem (some f) xs)
  ]

  -- A round of the loop, with what the others give.
  abbrev take_row : Bool → Option A → Option (List A) → Option (List A)
  take_row false row rest = some []
  take_row true none rest = none
  take_row true (some x) rest = Option.map (λ xs. x ∷ xs) rest

  -- The loop `for r.Next() { … }`, which takes the row of each round, with a bound on the rounds; `none` is a panic
  -- or the bound met.
  unfoldable pub read_all : ℕ → ResultSet A → Option (List A)
  read_all zero r = none
  read_all (suc fuel) r = let (s, more) = next r in take_row more (current_row s) (read_all fuel s)

  -- A round on the rows `ys` that are left, the first of them with the number `c`: no row passes, or the one
  -- behind `k` others.
  module _ (f : Option (A → Bool)) where
    step : List A → ℕ → ℕ
    step ys c = elim f [ none ↦ c | some g ↦ skip g ys c ]

    -- The row `x` behind `k` others is the next one.
    record IsNext (ys : List A) (c k : ℕ) (x : A) : Type 0 where
      inside : k < length ys
      number : step ys c ≡ c + k
      here : head (drop k ys) ≡ some x
      passes : passing f ys ≡ x ∷ passing f (drop (suc k) ys)

  step-cases :
      (f : Option (A → Bool)) (ys : List A) (c : ℕ)
      → ((passing f ys ≡ []) × (step f ys c ≡ c + length ys))
        ⊎ ((k : ℕ) × (x : A) × IsNext f ys c k x)
  unfolding step skip head
  step-cases none [] c = inl (refl, omega arith)
  step-cases none (x ∷ xs) c =
      inr (0, x, record { inside = omega arith; number = omega arith; here = refl; passes = refl })
  step-cases (some g) [] c = inl (refl, omega arith)
  step-cases (some g) (x ∷ xs) c = elim (Bool-cases (g x)) [
    | inl yes! ↦ inr (
      0,
      x,
      record {
        inside = omega arith;
        number = rw yes! (omega arith);
        here = refl;
        passes = rw yes! refl;
      },
    )
    | inr no! ↦ elim (step-cases (some g) xs (c + 1)) [
      | inl (nothing, at_end) ↦ inl (rw no! nothing, rw no! (omega (arith, at_end)))
      | inr (k, y, n) ↦ inr (
        suc k,
        y,
        record {
          inside = omega (arith, n.inside);
          number = rw no! (omega (arith, n.number));
          here = n.here;
          passes = rw no! n.passes;
        },
      )
    ]
  ]

  next_with-step :
      (f : Option (A → Bool)) (xs : List A) (c : ℕ)
      → next_with xs (c + 1) f ≡ step f (drop c xs) (c + 1)
  unfolding next_with step
  next_with-step none xs c = refl
  next_with-step (some g) xs c = ap (λ (n : ℕ). skip g (drop n xs) (c + 1)) (omega arith)

  module _ (xs : List A) (f : Option (A → Bool)) where
    abbrev at : ℕ → ResultSet A
    at c = record { results = xs; current = c; filter = f }

    next_at :
        (c d : ℕ) (more : Bool)
        → next_with xs (c + 1) f ≡ d
        → leb d (length xs) ≡ more
        → next (at c) ≡ (at d, more)
    unfolding next
    next_at c d more e h = rw (e, h) refl

    read_stop :
        (fuel : ℕ) (r s : ResultSet A) → next r ≡ (s, false) → read_all (suc fuel) r ≡ some []
    unfolding read_all
    read_stop fuel r s e = rw e refl

    read_go :
        (fuel : ℕ) (r s : ResultSet A) (x : A)
        → next r ≡ (s, true)
        → current_row s ≡ some x
        → read_all (suc fuel) r ≡ Option.map (λ ys. x ∷ ys) (read_all fuel s)
    unfolding read_all
    read_go fuel r s x e h = rw (e, h) refl

    row_at : (c k : ℕ) → current_row (at (c + 1 + k)) ≡ head (drop k (drop c xs))
    unfolding current_row
    row_at c k =
        ap (λ (b : Bool). if b then head (drop (c + 1 + k - 1) xs) else none) positive
        ∙ ap head (ap (λ (n : ℕ). drop n xs) back ∙ sym (drop-drop xs c k))
      where
        positive : ltb 0 (c + 1 + k) ≡ true
        positive = ground arith

        back : c + 1 + k - 1 ≡ c + k
        back = omega arith

    read_from :
        (fuel c : ℕ) → length xs - c < fuel → read_all fuel (at c) ≡ some (passing f (drop c xs))
    read_from zero c enough = absurd (omega (arith, enough))
    read_from (suc fuel) c enough = elim (step-cases f (drop c xs) (c + 1)) [
      | inl (nothing, at_end) ↦
          let d = c + 1 + length (drop c xs) in
          let over = leb-false d (length xs) (omega (arith, length-drop c xs)) in
          read_stop fuel (at c) (at d) (next_at c d false (next_with-step f xs c ∙ at_end) over)
          ∙ ap some (sym nothing)
      | inr (k, x, n) ↦
          let d = c + 1 + k in
          let more = leb-true d (length xs) (omega (arith, n.inside, length-drop c xs)) in
          let rest = read_from fuel d (omega (arith, n.inside, length-drop c xs, enough)) in
          read_go fuel (at c) (at d) x (next_at c d true (next_with-step f xs c ∙ n.number) more)
            (row_at c k ∙ n.here)
          ∙ ap (Option.map (λ ys. x ∷ ys)) rest
          ∙ ap (λ (ys : List A). some (x ∷ passing f ys)) (behind c k)
          ∙ ap some (sym n.passes)
    ]
      where
        behind : (c k : ℕ) → drop (c + 1 + k) xs ≡ drop (suc k) (drop c xs)
        behind c k = ap (λ (n : ℕ). drop n xs) (omega arith) ∙ sym (drop-drop xs c (suc k))

  -- Reset and then `for r.Next()`, with the row of each round: it ends within one more round than there are
  -- rows, without a panic, and the rows are those that pass the filter, in their order and all of them if
  -- there is none; `Len` is their number.
  pub read_all-reset :
      (r : ResultSet A) (fuel : ℕ)
      → length r.results < fuel
      → (read_all fuel (reset r) ≡ some (passing r.filter r.results))
        × (len r ≡ length (passing r.filter r.results))
  unfolding reset len
  read_all-reset r fuel enough =
      (read_from r.results r.filter fuel 0 (omega (arith, enough)), len_lem r.filter r.results)
