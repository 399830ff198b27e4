-- ===== src/Stmt/Next/Outcome.antt =====
-- Why a call of `Next` returns: the line is used up, a command was read, or a statement is complete.
use mathlib.Core.Option.{some-injective}
use mathlib.Core.Path.{subst}
use usql.Base.{
  ℕ, zero, suc, ◌+◌, ◌-◌, ◌≤◌, ◌<◌, ◌≡◌, refl, sym, ap, ◌∙◌, Bool, true, inl, inr, Option, none,
  some, [], ◌∷◌, arith, Runes, ltb, Bool-cases, ltb→lt, ltb→le, drop, take, drop_at,
}
use usql.Stmt.Buffer.{Stmt}
use usql.Stmt.Command.Bounds.{read_command-Spans}
use usql.Stmt.Command.{read_command}
use usql.Stmt.Next.Cases.{round_rule, IsPlain}
use usql.Stmt.Next.Loop.{Round-cases, loop_move, loop_break, loop_over}
use usql.Stmt.Next.Keeps.{IsValid}
use usql.Stmt.Next.Keeps.{round-Keeps}
use usql.Stmt.Next.{
  Unquoted, Parsed, Round, move, break, in_string, in_comment, at_dollar, replaced, at_variable,
  at_escape, at_command, round, parse_loop,
}
use usql.Stmt.Rune.{Unicode}
use usql.Stmt.Scan.{rune_at}
use usql.Stmt.Variable.{Var, read_var}

-- No string, comment or parenthesis is open.
pub record IsClosed (b : Stmt) : Type 0 where
  pub plain : IsPlain b
  pub balanced : b.balance_count ≡ 0

-- How the loop ends, if it began with the flag `ready`.
pub data Ends (ready : Bool) (p : Parsed) : Type 0 where
  used_up : p.cmd ≡ [] → p.params ≡ [] → p.stmt.ready ≡ ready → p.stmt.rlen ≤ p.i → Ends ready p
  command :
      (name : Runes) → p.cmd ≡ b'\\' ∷ name → p.stmt.ready ≡ ready → IsClosed p.stmt → Ends ready p
  terminated :
      p.cmd ≡ []
      → p.params ≡ []
      → p.stmt.ready ≡ true
      → IsClosed p.stmt
      → (i : ℕ) × (p.i ≡ i + 1) × (i < p.stmt.rlen) × (rune_at p.stmt.r i ≡ b';')
      → Ends ready p

abbrev Stops : Bool → Round → Type 0
Stops ready (move b j) = b.ready ≡ ready
Stops ready (break b j cmd params) =
    Ends ready (record { stmt = b; i = j; cmd = cmd; params = params })

module _ (b : Stmt) (i : ℕ) where
  in_string-Stops : Stops b.ready (in_string b i)
  unfolding in_string
  in_string-Stops = ground arith

  at_dollar-Stops : Stops b.ready (at_dollar b i)
  unfolding at_dollar
  at_dollar-Stops = ground arith

  at_variable-Stops :
      (unquote : Runes → Bool → Unquoted) (o : Option Var)
      → Stops b.ready (at_variable unquote b i o)
  unfolding at_variable replaced
  at_variable-Stops unquote none = refl
  at_variable-Stops unquote (some v) = ground arith

  at_command-Stops :
      IsValid b
      → i < b.rlen
      → IsPlain b
      → b.balance_count ≡ 0
      → rune_at b.r i ≡ b'\\'
      → Stops b.ready (at_command b i)
  unfolding at_command
  at_command-Stops ok inside p z c =
      let spans = read_command-Spans b.r i b.rlen inside in
      let cend = (read_command b.r i b.rlen).0 in
      command (take (cend - i - 1) (drop (suc i) b.r))
        (starts (drop i b.r) (cend - i)
          (drop_at b.r i 0 (omega (arith, ok.counted)) ∙ ap (λ (x : ℕ). x ∷ drop (suc i) b.r) c)
          (omega arith))
        refl (record { plain = record { unquoted = p.unquoted; code = p.code }; balanced = z })
    where
      starts :
          (s : Runes) (n : ℕ) {c : ℕ} {t : Runes}
          → s ≡ c ∷ t
          → 0 < n
          → take n s ≡ c ∷ take (n - 1) t
      starts s zero e h = elim h [ ]
      starts s (suc n) {c} {t} e h = rw e (ap (λ (k : ℕ). c ∷ take k t) (pred n))
        where
          pred : (k : ℕ) → k ≡ suc k - 1
          pred k = omega arith

module _ ⦃u : Unicode⦄ (unquote : Runes → Bool → Unquoted) where
  round-Stops : (b : Stmt) (i : ℕ) → IsValid b → i < b.rlen → Stops b.ready (round unquote b i)
  round-Stops b i ok inside =
      round_rule (Stops b.ready) unquote b i (λ _. in_string-Stops b i)
        (λ _ _. unfold in_comment in refl) (λ _ _. refl) (λ _ _ _. at_dollar-Stops b i) (λ _. refl)
        (λ _ _ _. refl) (λ _ _. at_variable-Stops b i unquote (read_var b.r i b.rlen)) (λ _. refl)
        (λ _. refl) (λ _. refl) (λ _ _ _. unfold at_escape replaced in refl)
        (λ p z c. at_command-Stops b i ok inside p z c)
        (λ p z c.
          terminated refl refl refl
            (record { plain = record { unquoted = p.unquoted; code = p.code }; balanced = z })
            (i, refl, inside, c))

  pub loop-Ends :
      (fuel : ℕ) (b : Stmt) (i : ℕ) (p : Parsed)
      → IsValid b
      → parse_loop unquote fuel b i ≡ some p
      → Ends b.ready p
  loop-Ends zero b i p ok is = unfold parse_loop in cc
  loop-Ends (suc fuel) b i p ok is = elim (Bool-cases (ltb i b.rlen)) [
    | inl more ↦
        let kept = round-Keeps unquote b i ok (ltb→lt i b.rlen more) in
        let stops = round-Stops b i ok (ltb→lt i b.rlen more) in
        elim (Round-cases (round unquote b i)) [
          | inl (b', j, on) ↦
              subst (λ (r : Bool). Ends r p) (rw on at stops)
                (loop-Ends fuel b' j p (rw on at kept)
                  (sym (loop_move unquote fuel b i b' j more on) ∙ is))
          | inr (b', j, cmd, params, on) ↦
              subst (Ends b.ready)
                (some-injective _ p
                  (sym (loop_break unquote fuel b i b' j cmd params more on) ∙ is))
                (rw on at stops)
        ]
    | inr over ↦
        subst (Ends b.ready) (some-injective _ p (sym (loop_over unquote fuel b i over) ∙ is))
          (used_up refl refl refl (ltb→le i b.rlen over))
  ]
