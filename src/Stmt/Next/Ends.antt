-- ===== src/Stmt/Next/Ends.antt =====
-- `Next` ends: with values that hold no colon, the rounds are bounded by the length of the line.
use mathlib.Core.Option
use usql.Failure.{Error}
use usql.Base.{
  ℕ, zero, suc, ◌+◌, ◌*◌, ◌≤◌, ◌<◌, ◌≡◌, refl, sym, ap, ◌∙◌, Bool, true, false, inl, inr, Option,
  none, some, [], ◌∷◌, ◌++◌, ◌==◌, arith, Runes, length, get_or, take, drop, ltb, if◌then◌else◌,
  Bool-cases, ltb→lt, length-append, length-take,
}
use usql.Stmt.Buffer.{Stmt}
use usql.Stmt.Command.{read_command}
use usql.Stmt.Quote.{read_string, read_multiline_comment, read_dollar_and_tag}
use usql.Stmt.Next.Cases.{round_rule}
use usql.Stmt.Next.Loop.{Round-cases, loop_move, loop_break, loop_over}
use usql.Stmt.Next.Work.{colons, work, work-le, work_skip, work_replaced, work_escape}
use usql.Stmt.Next.{
  Unquoted, Fetched, Parsed, Read, Round, move, break, in_string, in_comment, at_dollar, replaced,
  quoted_name, at_variable, at_escape, at_command, round, parse_loop, parse_line, fetch_line,
  finish, next,
}
use usql.Stmt.Quote.Bounds.{read_string_from, read_multiline_comment_from, read_dollar_and_tag_from}
use usql.Stmt.Rune.{Unicode}
use usql.Stmt.Scan.{grab}
use usql.Stmt.Splice.Refines.{substitute_var_lem}
use usql.Stmt.Variable.Bounds.{IsRead, read_var-IsRead}
use usql.Stmt.Variable.{Var, read_var}

-- The values of variables hold no colon, and `l` runes at most.
abbrev pub IsCalm : ℕ → (Runes → Bool → Unquoted) → Type 0
IsCalm l unquote =
    (s : Runes)
    → (unquote s true).ok ≡ true
    → (colons (unquote s true).text ≡ 0) × (length (unquote s true).text ≤ l)

abbrev pub Counted : Stmt → Type 0
Counted b = b.rlen ≡ length b.r

-- A round goes on with less work, or stops.
abbrev Falls : ℕ → Stmt → ℕ → Round → Type 0
Falls l b i (move b' j) = Counted b' × (work l b'.r j < work l b.r i)
Falls l b i (break b' j cmd params) = Counted b' × (j ≤ b'.rlen)

pub replaced_lem :
    (b : Stmt) (v : Var) (z : Runes)
    → v.i ≤ v.end
    → v.end ≤ length b.r
    → ((replaced b v z).r ≡ take v.i b.r ++ (z ++ drop v.end b.r)) × Counted (replaced b v z)
unfolding replaced
replaced_lem b v z h k =
    let e = substitute_var_lem b.r b.rest v z h k in
    (
      ap (λ (p : Var × Runes × ℕ). p.1) e,
      ap (λ (p : Var × Runes × ℕ). p.2) e ∙ sym (ap (λ (p : Var × Runes × ℕ). length p.1) e),
    )

grab_at : (r : Runes) (i end : ℕ) → i < end → grab r i end ≡ get_or r i 0
unfolding grab
grab_at r i end h = ground arith

module _ (l : ℕ) (b : Stmt) (i : ℕ) (counted : Counted b) (inside : i < b.rlen) where
  in_string-Falls : Falls l b i (in_string b i)
  unfolding in_string
  in_string-Falls = ground (
    arith,
    read_string_from b.r i b.rlen b.quote b.quote_dollar_tag,
    work_skip l b.r i ((read_string b.r i b.rlen b.quote b.quote_dollar_tag).0 + 1),
  )

  in_comment-Falls : Falls l b i (in_comment b i)
  unfolding in_comment
  in_comment-Falls = ground (
    arith,
    read_multiline_comment_from b.r i b.rlen,
    work_skip l b.r i ((read_multiline_comment b.r i b.rlen).0 + 1),
  )

  at_dollar-Falls : Falls l b i (at_dollar b i)
  unfolding at_dollar
  at_dollar-Falls = ground (
    arith,
    read_dollar_and_tag_from b.r i b.rlen,
    work_skip l b.r i ((read_dollar_and_tag b.r i b.rlen).at + 1),
  )

  at_command-Falls : Falls l b i (at_command b i)
  unfolding at_command
  at_command-Falls = (
    refl,
    omega (
      arith,
      length-append (take i b.r) (drop (read_command b.r i b.rlen).1 b.r),
      length-take i b.r,
    ),
  )

  at_escape-Falls : (c : ℕ) → i + 1 < b.rlen → Falls l b i (at_escape b i c)
  unfolding at_escape
  at_escape-Falls c next =
      let v : Var = record {
        i = i;
        end = i + 2;
        quote = b'\\';
        name = c ∷ [];
        len = 0;
        defined = false;
      } in
      let (is, ok) = replaced_lem b v (c ∷ []) (omega arith) (omega arith) in
      (ok, rw is (work_escape l b.r c i (omega arith)))

  at_variable-Falls :
      (unquote : Runes → Bool → Unquoted)
      → IsCalm l unquote
      → (o : Option Var) → ((v : Var) → o ≡ some v → IsRead b.r i b.rlen v)
      → Falls l b i (at_variable unquote b i o)
  unfolding at_variable
  at_variable-Falls unquote calm none is_read =
      (counted, work_skip l b.r i (i + 1) (omega arith) (omega arith))
  at_variable-Falls unquote calm (some v) is_read =
      elim (Bool-cases (unquote (quoted_name v) true).ok) [
        | inl known ↦
            let f = is_read v refl in
            let z = (unquote (quoted_name v) true).text in
            let w : Var = record v { defined = true } in
            let (is, ok) =
              replaced_lem b w z (omega (arith, f.starts, f.two)) (omega (arith, f.upto)) in
            let line : (replaced b w z).r ≡ take i b.r ++ (z ++ drop v.end b.r) =
              is ∙ ap (λ (k : ℕ). take k b.r ++ (z ++ drop v.end b.r)) f.starts in
            let (calm_colons, calm_length) = calm (quoted_name v) known in
            let colon = sym (grab_at b.r i b.rlen inside) ∙ f.colon in
            rw known (
              ok,
              rw line (
                  work_replaced l b.r z i v.end f.two (omega (arith, f.upto)) colon calm_colons
                    calm_length),
            )
        | inr unknown ↦ rw unknown (counted, work_skip l b.r i (i + 1) (omega arith) (omega arith))
      ]

pub grab_next : (r : Runes) (i end : ℕ) → (grab r i end == 0) ≡ false → i < end
unfolding grab
grab_next r i end h = ground arith

module _ ⦃u : Unicode⦄ (l : ℕ) (unquote : Runes → Bool → Unquoted) (calm : IsCalm l unquote) where
  round-Falls : (b : Stmt) (i : ℕ) → Counted b → i < b.rlen → Falls l b i (round unquote b i)
  round-Falls b i counted inside =
      let skip = work_skip l b.r i in
      let ahead = grab_next b.r (i + 1) b.rlen in
      round_rule (Falls l b i) unquote b i (λ _. in_string-Falls l b i counted inside)
        (λ _ _. in_comment-Falls l b i counted inside)
        (λ _ _. (counted, skip (i + 1) (omega arith) (omega arith)))
        (λ _ _ _. at_dollar-Falls l b i counted inside)
        (λ _. (counted, skip (b.rlen + 1) (omega arith) (omega arith)))
        (λ _ _ _. (counted, skip (i + 2) (omega arith) (omega arith)))
        (λ _ _.
          at_variable-Falls l b i counted inside unquote calm (read_var b.r i b.rlen)
            (λ v. read_var-IsRead b.r i b.rlen v inside))
        (λ _. (counted, skip (i + 1) (omega arith) (omega arith)))
        (λ _. (counted, skip (i + 1) (omega arith) (omega arith)))
        (λ _. (counted, skip (i + 1) (omega arith) (omega arith)))
        (λ _ _ n. at_escape-Falls l b i counted inside (grab b.r (i + 1) b.rlen) (ahead n))
        (λ _ _ _. at_command-Falls l b i counted inside) (λ _ _ _. (counted, omega arith))

  -- The loop ends, if the fuel exceeds the work.
  loop_ends :
      (fuel : ℕ) (b : Stmt) (i : ℕ)
      → Counted b
      → work l b.r i < fuel
      → (p : Parsed) × (parse_loop unquote fuel b i ≡ some p) × Counted p.stmt
  loop_ends zero b i counted enough = absurd (omega arith)
  loop_ends (suc fuel) b i counted enough = elim (Bool-cases (ltb i b.rlen)) [
    | inl more ↦
        let falls = round-Falls b i counted (ltb→lt i b.rlen more) in
        elim (Round-cases (round unquote b i)) [
          | inl (b', j, is) ↦
              let (counted', less) = rw is at falls in
              let (p, ends, ok) = loop_ends fuel b' j counted' (omega arith) in
              (p, loop_move unquote fuel b i b' j more is ∙ ends, ok)
          | inr (b', j, cmd, params, is) ↦ (
            record { stmt = b'; i = j; cmd = cmd; params = params },
            loop_break unquote fuel b i b' j cmd params more is,
            (rw is at falls).0,
          )
        ]
    | inr over ↦ (
      record { stmt = b; i = i; cmd = []; params = [] },
      loop_over unquote fuel b i over,
      counted,
    )
  ]

  parse_line_ends :
      (fuel : ℕ) (b : Stmt)
      → Counted b
      → length b.r * (l + 2) < fuel
      → (x : Read) × (parse_line unquote fuel b ≡ some x)
  unfolding parse_line
  parse_line_ends fuel b counted enough =
      let (p, ends, _) = loop_ends fuel b 0 counted (omega (arith, work-le l b.r)) in
      (finish p, ap (Option.map finish) ends)

  -- The line that a call of `Next` reads: what is left, or what is fetched.
  abbrev pub line_of : Fetched → Stmt → Runes
  line_of got b = if b.rlen == 0 then got.line else b.r

  fetch_line_ends :
      (fuel : ℕ) (got : Fetched) (e : Option Error) (b : Stmt)
      → length got.line * (l + 2) < fuel
      → (x : Read) × (fetch_line unquote fuel got e b ≡ some x)
  unfolding fetch_line
  fetch_line_ends fuel got none b enough = parse_line_ends fuel _ refl enough
  fetch_line_ends fuel got (some e) b enough = (_, refl)

  -- `Next` returns. Where the values of variables hold no colon and have `l` runes at most, fuel above
  -- `l + 2` rounds for each rune of the line is enough, whatever the line and the state.
  pub next_ends :
      (fuel : ℕ) (got : Fetched) (b : Stmt)
      → Counted b
      → length (line_of got b) * (l + 2) < fuel
      → (x : Read) × (next unquote fuel got b ≡ some x)
  unfolding next
  next_ends fuel got b counted enough = elim (Bool-cases (b.rlen == 0)) [
    | inl used ↦
        let (x, is) = fetch_line_ends fuel got got.err b (rw used at enough) in (x, rw used is)
    | inr left ↦ let (x, is) = parse_line_ends fuel b counted (rw left at enough) in (x, rw left is)
  ]
