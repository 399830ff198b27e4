-- ===== src/Stmt/Next/Apart.antt =====
-- A line in an array of its own stays in one while `Next` reads it.
use mathlib.Core.Option.{some-injective}
use mathlib.Core.Path.{subst}
use usql.Base.{
  ℕ, zero, suc, ◌≡◌, refl, sym, ◌∙◌, Bool, true, false, inl, inr, Option, none, some, Runes, ltb,
  Bool-cases, arith, if◌then◌else◌,
}
use usql.Stmt.Buffer.{Stmt}
use usql.Stmt.Next.Cases.{round_rule}
use usql.Stmt.Next.Loop.{Round-cases, loop_move, loop_break, loop_over}
use usql.Stmt.Next.{
  Unquoted, Parsed, Round, move, break, in_string, in_comment, at_dollar, replaced, at_variable,
  at_escape, at_command, round, parse_loop,
}
use usql.Stmt.Rune.{Unicode}
use usql.Stmt.Variable.{Var, read_var}

abbrev StaysApart : Round → Type 0
StaysApart (move b j) = b.line_at ≡ none
StaysApart (break b j cmd params) = b.line_at ≡ none

either_none : (c : Bool) (o : Option ℕ) → o ≡ none → (if c then none else o) ≡ none
either_none true o e = refl
either_none false o e = e

module _ (b : Stmt) (i : ℕ) (apart : b.line_at ≡ none) where
  replaced-StaysApart : (v : Var) (z : Runes) → (replaced b v z).line_at ≡ none
  unfolding replaced
  replaced-StaysApart v z = either_none _ b.line_at apart

  in_string-StaysApart : StaysApart (in_string b i)
  unfolding in_string
  in_string-StaysApart = ground arith

  at_dollar-StaysApart : StaysApart (at_dollar b i)
  unfolding at_dollar
  at_dollar-StaysApart = ground arith

  at_variable-StaysApart :
      (unquote : Runes → Bool → Unquoted) (o : Option Var) → StaysApart (at_variable unquote b i o)
  unfolding at_variable
  at_variable-StaysApart unquote none = apart
  at_variable-StaysApart unquote (some v) =
      let known = replaced-StaysApart (record v { defined = true }) in ground (arith, known)

module _ ⦃u : Unicode⦄ (unquote : Runes → Bool → Unquoted) where
  round-StaysApart : (b : Stmt) (i : ℕ) → b.line_at ≡ none → StaysApart (round unquote b i)
  round-StaysApart b i apart =
      round_rule StaysApart unquote b i (λ _. in_string-StaysApart b i apart)
        (λ _ _. unfold in_comment in apart) (λ _ _. apart) (λ _ _ _. at_dollar-StaysApart b i apart)
        (λ _. apart) (λ _ _ _. apart)
        (λ _ _. at_variable-StaysApart b i apart unquote (read_var b.r i b.rlen)) (λ _. apart)
        (λ _. apart) (λ _. apart) (λ _ _ _. unfold at_escape in replaced-StaysApart b i apart _ _)
        (λ _ _ _. unfold at_command in apart) (λ _ _ _. apart)

  pub loop-StaysApart :
      (fuel : ℕ) (b : Stmt) (i : ℕ) (p : Parsed)
      → b.line_at ≡ none
      → parse_loop unquote fuel b i ≡ some p
      → p.stmt.line_at ≡ none
  loop-StaysApart zero b i p apart is = unfold parse_loop in cc
  loop-StaysApart (suc fuel) b i p apart is = elim (Bool-cases (ltb i b.rlen)) [
    | inl more ↦
        let kept = round-StaysApart b i apart in
        elim (Round-cases (round unquote b i)) [
          | inl (b', j, on) ↦
              loop-StaysApart fuel b' j p (rw on at kept)
                (sym (loop_move unquote fuel b i b' j more on) ∙ is)
          | inr (b', j, cmd, params, on) ↦
              subst (λ (q : Parsed). q.stmt.line_at ≡ none)
                (some-injective _ _
                  (sym (loop_break unquote fuel b i b' j cmd params more on) ∙ is))
                (rw on at kept)
        ]
    | inr over ↦
        subst (λ (q : Parsed). q.stmt.line_at ≡ none)
          (some-injective _ _ (sym (loop_over unquote fuel b i over) ∙ is)) apart
  ]
