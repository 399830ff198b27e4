-- ===== src/Stmt/Next/Valid.antt =====
-- The invariant of the statement buffer, which `New`, `Next` and `Reset` keep.
use mathlib.Core.Option.{some-injective}
use mathlib.Core.Path.{subst}
use usql.Failure.{Error}
use usql.Base.{
  false, ◌∷◌, ℕ, zero, suc, ◌≡◌, refl, sym, ◌∙◌, Bool, inl, inr, Option, none, some, List, [], ◌==◌,
  arith, Runes, length, ltb, Bool-cases, Option-cases, ltb→lt,
}
use usql.Stmt.Buffer.{Stmt, StmtOption, apply_all, apply, new, reset, zero_stmt}
use usql.Stmt.Next.Loop.{Round-cases, loop_move, loop_break, loop_over}
use usql.Stmt.Next.{
  Unquoted, Fetched, Parsed, Read, round, parse_loop, finish, parse_line, fetch_line, next,
}
use usql.Stmt.Rune.{Unicode}
use usql.Stmt.Next.Appended.{parsed-IsValid}
use usql.Stmt.Next.Keeps.{IsValid, none_is_not_some, round-Keeps}

-- A valid buffer, or one that is valid but for the runes that a source gave with an error, which are not counted.
pub data IsSound (b : Stmt) : Type 0 where
  whole : IsValid b → IsSound b
  uncounted : b.rlen ≡ 0 → IsValid (record b { r = [] }) → IsSound b

pub used_line : (b : Stmt) → IsSound b → b.rlen ≡ 0 → IsValid (record b { r = [] })
used_line b (uncounted z ok) used = ok
used_line b (whole ok) used = record {
  counted = used;
  measured = ok.measured;
  one_mode = ok.one_mode;
  quotes = ok.quotes;
  tagged = ok.tagged;
}

pub left_line : (b : Stmt) → IsSound b → (b.rlen == 0) ≡ false → IsValid b
left_line b (whole ok) left = ok
left_line b (uncounted z ok) left = absurd (ground (arith, z, left))

module _ ⦃u : Unicode⦄ (unquote : Runes → Bool → Unquoted) where
  pub loop-IsValid :
      (fuel : ℕ) (b : Stmt) (i : ℕ) (p : Parsed)
      → IsValid b
      → parse_loop unquote fuel b i ≡ some p
      → IsValid p.stmt
  loop-IsValid zero b i p ok is = unfold parse_loop in cc
  loop-IsValid (suc fuel) b i p ok is = elim (Bool-cases (ltb i b.rlen)) [
    | inl more ↦
        let kept = round-Keeps unquote b i ok (ltb→lt i b.rlen more) in
        elim (Round-cases (round unquote b i)) [
          | inl (b', j, on) ↦
              loop-IsValid fuel b' j p (rw on at kept)
                (sym (loop_move unquote fuel b i b' j more on) ∙ is)
          | inr (b', j, cmd, params, on) ↦
              subst (λ (q : Parsed). IsValid q.stmt)
                (some-injective _ _
                  (sym (loop_break unquote fuel b i b' j cmd params more on) ∙ is))
                (rw on at kept)
        ]
    | inr over ↦
        subst (λ (q : Parsed). IsValid q.stmt)
          (some-injective _ _ (sym (loop_over unquote fuel b i over) ∙ is)) ok
  ]

  finish-IsValid : (p : Parsed) → IsValid p.stmt → IsValid (finish p).stmt
  unfolding finish
  finish-IsValid p ok =
      let b = parsed-IsValid p ok in
      record {
        counted = refl;
        measured = b.measured;
        one_mode = b.one_mode;
        quotes = b.quotes;
        tagged = b.tagged;
      }

  parse_line-IsValid :
      (fuel : ℕ) (b : Stmt) (x : Read)
      → IsValid b
      → parse_line unquote fuel b ≡ some x
      → IsValid x.stmt
  unfolding parse_line
  parse_line-IsValid fuel b x ok is = elim (Option-cases (parse_loop unquote fuel b 0)) [
    | inl ran_out ↦ absurd (none_is_not_some x (rw ran_out at is))
    | inr (p, ended) ↦
        subst (λ (y : Read). IsValid y.stmt) (some-injective (finish p) x (rw ended at is))
          (finish-IsValid p (loop-IsValid fuel b 0 p ok ended))
  ]

  fetch_line-IsSound :
      (fuel : ℕ) (got : Fetched) (e : Option Error) (b : Stmt) (x : Read)
      → IsValid (record b { r = [] })
      → fetch_line unquote fuel got e b ≡ some x
      → IsSound x.stmt
  unfolding fetch_line
  fetch_line-IsSound fuel got none b x ok is = whole (
      parse_line-IsValid fuel
        (record b { r = got.line; rest = got.rest; rlen = length got.line; line_at = none }) x
        (record {
          counted = refl;
          measured = ok.measured;
          one_mode = ok.one_mode;
          quotes = ok.quotes;
          tagged = ok.tagged;
        })
        is)
  fetch_line-IsSound fuel got (some e) b x ok is =
      subst (λ (y : Read). IsSound y.stmt) (some-injective _ x is)
        (uncounted ok.counted (record {
          counted = ok.counted;
          measured = ok.measured;
          one_mode = ok.one_mode;
          quotes = ok.quotes;
          tagged = ok.tagged;
        }))

  -- A call of `Next` that returns keeps the invariant.
  pub next-IsSound :
      (fuel : ℕ) (got : Fetched) (b : Stmt) (x : Read)
      → IsSound b
      → next unquote fuel got b ≡ some x
      → IsSound x.stmt
  unfolding next
  next-IsSound fuel got b x ok is = elim (Bool-cases (b.rlen == 0)) [
    | inl used ↦
        fetch_line-IsSound fuel got got.err b x (used_line b ok (ground arith)) (rw used at is)
    | inr left ↦ whole (parse_line-IsValid fuel b x (left_line b ok left) (rw left at is))
  ]

reset-IsSound : (o : Option (Runes × Runes)) (b : Stmt) → IsSound b → IsSound (reset o b)
unfolding reset
reset-IsSound none b (whole ok) = whole (ground arith)
reset-IsSound none b (uncounted z ok) = uncounted z (record {
  counted = z;
  measured = refl;
  one_mode = inl refl;
  quotes = inl refl;
  tagged = inr refl;
})
reset-IsSound (some (r, rest)) b ok = whole (record {
  counted = refl;
  measured = refl;
  one_mode = inl refl;
  quotes = inl refl;
  tagged = inr refl;
})

configured-IsSound : (opts : List StmtOption) (b : Stmt) → IsSound b → IsSound (apply_all opts b)
unfolding apply_all
configured-IsSound [] b ok = ok
configured-IsSound (o ∷ opts) b ok =
    configured-IsSound opts (apply o b) (unfold apply in applied o ok)
  where
    applied : (p : StmtOption) → IsSound b → IsSound (apply p b)
    applied (StmtOption.with_allow_dollar on) (whole ok) = whole (ground arith)
    applied (StmtOption.with_allow_dollar on) (uncounted z ok) = uncounted z (ground arith)
    applied (StmtOption.with_allow_multiline_comments on) (whole ok) = whole (ground arith)
    applied (StmtOption.with_allow_multiline_comments on) (uncounted z ok) =
        uncounted z (ground arith)
    applied (StmtOption.with_allow_c_comments on) (whole ok) = whole (ground arith)
    applied (StmtOption.with_allow_c_comments on) (uncounted z ok) = uncounted z (ground arith)
    applied (StmtOption.with_allow_hash_comments on) (whole ok) = whole (ground arith)
    applied (StmtOption.with_allow_hash_comments on) (uncounted z ok) = uncounted z (ground arith)

-- The states of a buffer in use: made by `New`, and then changed by `Next`, `Reset` and options.
pub data Used ⦃u : Unicode⦄ : Stmt → Type 0 where
  made : (opts : List StmtOption) → Used (new opts)
  read_next :
      {b : Stmt} (unquote : Runes → Bool → Unquoted) (fuel : ℕ) (got : Fetched) (x : Read)
      → Used b
      → next unquote fuel got b ≡ some x
      → Used x.stmt
  cleared : {b : Stmt} (o : Option (Runes × Runes)) → Used b → Used (reset o b)
  configured : {b : Stmt} (opts : List StmtOption) → Used b → Used (apply_all opts b)

zero-IsValid : IsValid zero_stmt
zero-IsValid = record {
  counted = refl;
  measured = refl;
  one_mode = inl refl;
  quotes = inl refl;
  tagged = inr refl;
}

-- Every state of a buffer in use, which `New` made and `Next`, `Reset` and options changed, is valid: its
-- lengths are those of its slices, no string is open with a comment, only the three quotes open a string, and
-- only a dollar string has a tag. The one exception is a source that gives runes with an error: they stand in
-- the buffer with `rlen` 0.
pub Used-IsSound : ⦃u : Unicode⦄ {b : Stmt} → Used b → IsSound b
Used-IsSound (made opts) = unfold new in configured-IsSound opts zero_stmt (whole zero-IsValid)
Used-IsSound (read_next {b} unquote fuel got x s is) =
    next-IsSound unquote fuel got b x (Used-IsSound s) is
Used-IsSound (cleared {b} o s) = reset-IsSound o b (Used-IsSound s)
Used-IsSound (configured {b} opts s) = configured-IsSound opts b (Used-IsSound s)
