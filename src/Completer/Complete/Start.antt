-- ===== src/Completer/Complete/Start.antt =====
-- Where the text that `Do` completes starts.
use usql.Base.{
  ℕ, zero, suc, ◌≤◌, ◌<◌, ◌≡◌, refl, true, false, ◌⊎◌, inl, inr, arith, Runes, get_or, Bool-cases,
}
use usql.Completer.Words.{is_break}
use usql.Completer.Complete.{text_start}

module _ (line : Runes) where
  -- The text before the position `p` starts at `i`: behind a break, or at the start of the line, and no rune of it is a
  -- break, but for the first rune of the line.
  pub record IsStart (p i : ℕ) : Type 0 where
    pub inside : i ≤ p
    pub behind_break : (i ≡ 0) ⊎ ((j : ℕ) × (i ≡ suc j) × (is_break (get_or line j 0) ≡ true))
    pub no_break : (j : ℕ) → i ≤ j → j < p → 0 < j → is_break (get_or line j 0) ≡ false

  -- The text that `Do` completes, before the cursor at the position `suc n`, starts behind the last word
  -- break, or where the line starts; a break that is the first rune of the line is not looked at and counts
  -- as text.
  pub text_start-IsStart : (n : ℕ) → IsStart (suc n) (text_start line n)
  unfolding text_start
  text_start-IsStart zero = record {
    inside = omega arith;
    behind_break = inl refl;
    no_break = λ j a b c. absurd (omega arith);
  }
  text_start-IsStart (suc n) = elim (Bool-cases (is_break (get_or line (suc n) 0))) [
    | inl found ↦ rw found (record {
      inside = omega arith;
      behind_break = inr (suc n, omega arith, found);
      no_break = λ j a b c. absurd (omega arith);
    })
    | inr no! ↦
        let r = text_start-IsStart n in
        rw no! (record {
          inside = omega (arith, r.inside);
          behind_break = r.behind_break;
          no_break = λ j a b c. last_or_before n j no! (λ h. r.no_break j a h c) b;
        })
  ]
    where
      last_or_before :
          (n j : ℕ)
          → is_break (get_or line (suc n) 0) ≡ false
          → (j < suc n → is_break (get_or line j 0) ≡ false)
          → j < suc (suc n)
          → is_break (get_or line j 0) ≡ false
      last_or_before n j h before b = ground (arith, before)
