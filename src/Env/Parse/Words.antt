-- ===== src/Env/Parse/Words.antt =====
-- The values that parsing a setting returns.
use usql.Base.{
  ℕ, ◌≡◌, refl, Bool, true, false, Option, none, some, List, [], ◌∷◌, map, arith, Runes, among,
  if◌then◌else◌,
}
use mathlib.Core.Path.{subst}
use mathlib.Core.Option.{some-injective}
use usql.Env.Parse.{matching, on, off, parse_bool, parse_keyword_bool}

-- A result of a ladder of tests has what the result of each branch has.
some_if :
    (P : Runes → Type 0) (c : Bool) (a v : Runes) (o : Option Runes)
    → (c ≡ true → P a)
    → (o ≡ some v → P v)
    → (if c then some a else o) ≡ some v
    → P v
some_if P true a v o here there is = subst P (some-injective a v is) (here refl)
some_if P false a v o here there is = there is

module _ (to_lower : ℕ → ℕ) where
  pub parse_bool-among :
      (x v : Runes) → parse_bool to_lower x ≡ some v → among v (on ∷ off ∷ []) ≡ true
  unfolding parse_bool
  parse_bool-among x v is =
      let P : Runes → Type 0 = λ w. among w (on ∷ off ∷ []) ≡ true in
      some_if P _ on v _ (λ _. refl)
        (some_if P _ off v none (λ _. refl) (λ e. absurd (ground (arith, e)))) is

  pub parse_keyword_bool-among :
      (x v k : Runes)
      → parse_keyword_bool to_lower x (k ∷ []) ≡ some v
      → among v (on ∷ k ∷ off ∷ []) ≡ true
  unfolding parse_keyword_bool
  parse_keyword_bool-among x v k is =
      let P : Runes → Type 0 = λ w. among w (on ∷ k ∷ off ∷ []) ≡ true in
      some_if P _ on v _ (λ _. refl)
        (some_if P _ off v _ (λ _. ground arith)
          (some_if P _ (map to_lower x) v none (λ c. ground (arith, c))
            (λ e. absurd (ground (arith, e)))))
        is

pub matching-among :
    (words : List Runes) (x v : Runes) → matching words x ≡ some v → among v words ≡ true
matching-among words x v is =
    some_if (λ w. among w words ≡ true) (among x words) x v none (λ c. c)
      (λ e. absurd (ground (arith, e))) is
