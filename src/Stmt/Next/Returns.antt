-- ===== src/Stmt/Next/Returns.antt =====
-- What a call of `Next` that returns leaves and returns, in each of its three cases.
use mathlib.Core.Option.{some-injective}
use mathlib.Core.Path.{subst}
use usql.Base.{
  if_rule, ℕ, zero, suc, ◌+◌, ◌-◌, ◌≤◌, ◌<◌, ◌≡◌, refl, sym, ap, ◌∙◌, Bool, true, false, not, inl,
  ◌⊎◌, inr, Option, none, some, [], ◌∷◌, ◌++◌, ◌==◌, arith, Runes, length, Bool-cases, Option-cases,
  if◌then◌else◌, min, drop, take, get_or, drop_all, append_assoc, get_or-drop, length-drop,
}
use usql.Stmt.Buffer.Append.{append_lem, joined}
use usql.Stmt.Buffer.{Stmt, append, runes, string}
use usql.Failure.{Error}
use usql.Stmt.Next.Outcome.{Ends, IsClosed, loop-Ends}
use usql.Stmt.Next.Kept.{appended-kept}
use usql.Stmt.Next.Keeps.{IsValid, none_is_not_some}
use usql.Stmt.Next.Valid.{IsSound, used_line, left_line, loop-IsValid}
use usql.Stmt.Next.Appended.{parsed-IsValid}
use usql.Stmt.Next.Apart.{loop-StaysApart}
use usql.Stmt.Next.{
  Unquoted, Fetched, Parsed, Read, lineend, append_cut, moved, append_line, append_parsed, finish,
  parse_loop, parse_line, fetch_line, next,
}
use usql.Stmt.Rune.{Unicode, is_space_or_control}
use usql.Stmt.Scan.Find.{find-IsFirst}
use usql.Stmt.Scan.{rune_at, slice, find_non_space, is_empty_line}

-- Why `Next` returned, if it began with the flag `ready`: the line is used up; or a command was read outside
-- every string, comment and parenthesis, with its backslash; or a semicolon was found there, the buffer is
-- ready and its text ends in that semicolon.
pub data Outcome (ready : Bool) (x : Read) : Type 0 where
  used_up : x.cmd ≡ [] → x.params ≡ [] → x.stmt.ready ≡ ready → x.stmt.r ≡ [] → Outcome ready x
  command :
      (name : Runes)
      → x.cmd ≡ b'\\' ∷ name
      → x.stmt.ready ≡ ready
      → IsClosed x.stmt
      → Outcome ready x
  terminated :
      x.cmd ≡ []
      → x.params ≡ []
      → x.stmt.ready ≡ true
      → IsClosed x.stmt
      → (s : Runes) × (string x.stmt ≡ s ++ b';' ∷ [])
      → Outcome ready x

take_snoc : (s : Runes) (n : ℕ) → n < length s → take (suc n) s ≡ take n s ++ get_or s n 0 ∷ []
take_snoc [] n h = elim h [ ]
take_snoc (c ∷ s) zero h = refl
take_snoc (c ∷ s) (suc n) h = rw (take_snoc s n (omega arith))

-- A slice that ends behind the rune `c` at `i`.
slice_snoc :
    (r : Runes) (st i c : ℕ)
    → st ≤ i
    → i < length r
    → rune_at r i ≡ c
    → slice r st (i + 1) ≡ slice r st i ++ c ∷ []
slice_snoc r st i c h k e =
    let at_end : get_or (drop st r) (i - st) 0 ≡ c =
      get_or-drop r st (i - st) 0 ∙ ap (λ (n : ℕ). get_or r n 0) (back st i h) ∙ e in
    ap (λ (n : ℕ). take n (drop st r)) (next_length st i h)
    ∙ take_snoc (drop st r) (i - st) (omega (arith, length-drop st r))
    ∙ ap (λ (x : ℕ). take (i - st) (drop st r) ++ x ∷ []) at_end
  where
    back : (st i : ℕ) → st ≤ i → st + (i - st) ≡ i
    back st i h = omega arith

    next_length : (st i : ℕ) → st ≤ i → i + 1 - st ≡ suc (i - st)
    next_length st i h = omega arith

true_is_not_false : ◌≡◌ {A = Bool} true false → ⊥
true_is_not_false e = cc

-- A line with a semicolon is not empty, and its text starts no later.
module _ (r : Runes) (i : ℕ) (semicolon : rune_at r i ≡ b';') where
  stops : not (is_space_or_control (rune_at r i)) ≡ true
  unfolding is_space_or_control
  stops = rw semicolon

  found : ((find_non_space r 0 (i + 1)).1 ≡ true) × ((find_non_space r 0 (i + 1)).0 ≤ i)
  found =
      let first = (find-IsFirst r 0 (i + 1) 0 (omega arith)).1 in
      elim (Bool-cases (find_non_space r 0 (i + 1)).1) [
        | inl yes! ↦ (yes!, omega (arith, (first.hit yes!).0))
        | inr no! ↦ absurd (
            true_is_not_false
              (sym stops ∙ first.before i (omega arith) (omega (arith, first.miss no!))))
      ]

  not_empty : is_empty_line r 0 (i + 1) ≡ false
  unfolding is_empty_line
  not_empty = rw found.0

appended_text :
    (buf : Option Runes) (r : Runes) (b : Stmt)
    → b.buf ≡ buf
    → b.len ≡ length (runes b.buf)
    → runes (append [] r lineend b).buf ≡ joined buf r lineend
appended_text buf r b e h =
    ap (λ (x : Stmt). runes x.buf) (append_lem [] r lineend b h)
    ∙ ap (λ (o : Option Runes). joined o r lineend) e

module _ ⦃u : Unicode⦄ where
  finish-IsClosed : (p : Parsed) → IsClosed p.stmt → IsClosed (finish p).stmt
  unfolding finish
  finish-IsClosed p c =
      let kept = appended-kept p in
      record {
        plain = record {
          unquoted = kept.same_quote ∙ c.plain.unquoted;
          code = kept.same_comment ∙ c.plain.code;
        };
        balanced = kept.same_balance ∙ c.balanced;
      }

  joined_ends :
      (o : Option Runes) (r sep s : Runes) (c : ℕ)
      → r ≡ s ++ c ∷ []
      → (t : Runes) × (joined o r sep ≡ t ++ c ∷ [])
  joined_ends none r sep s c e = (s, e)
  joined_ends (some buf) r sep s c e =
      (buf ++ (sep ++ s), ap (λ (x : Runes). buf ++ (sep ++ x)) e ∙ simp append_assoc)

  append_line_lem : (p : Parsed) → append_line p false ≡ true
  unfolding append_line
  append_line_lem p = ground arith

  -- The text behind an append to a text apart from the line.
  append_cut-text :
      (buf : Option Runes) (p : Option ℕ) (st i : ℕ) (b : Stmt)
      → b.buf ≡ buf
      → p ≡ none
      → b.len ≡ length (runes b.buf)
      → runes (append_cut buf p st i b).buf ≡ joined buf (slice b.r st i) lineend
  unfolding append_cut
  append_cut-text none p st i b e apart h = appended_text none (slice b.r st i) b e h
  append_cut-text (some s) none st i b e apart h = appended_text (some s) (slice b.r st i) b e h
  append_cut-text (some s) (some p) st i b e apart h = absurd (none_is_not_some p (sym apart))

  -- The text behind a semicolon at `i`.
  finish-text :
      (p : Parsed) (i : ℕ)
      → IsValid p.stmt
      → p.stmt.line_at ≡ none
      → p.i ≡ i + 1
      → i < p.stmt.rlen
      → rune_at p.stmt.r i ≡ b';'
      → (s : Runes) × (string (finish p).stmt ≡ s ++ b';' ∷ [])
  unfolding string finish
  finish-text p i ok apart at inside c =
      let b = p.stmt in
      let start = λ (n : ℕ). if b.len == 0 then (find_non_space b.r 0 n).0 else 0 in
      let whole : min p.i b.rlen ≡ i + 1 = omega (arith, at) in
      let taken : append_line p (is_empty_line b.r 0 (i + 1)) ≡ true =
        ap (append_line p) (not_empty b.r i c) ∙ append_line_lem p in
      let early : start (i + 1) ≤ i =
        if_rule (λ (n : ℕ). n ≤ i) (b.len == 0) (λ _. (found b.r i c).1) (λ _. omega arith) in
      let line = slice b.r (start (i + 1)) (i + 1) in
      let runs : append_parsed p ≡ append_cut b.buf b.line_at (start (i + 1)) (i + 1) b =
        unfold append_parsed in
        ap
          (λ (n : ℕ).
            if append_line p (is_empty_line b.r 0 n)
            then append_cut b.buf b.line_at (start n) n b
            else moved n b)
          whole
        ∙ ap
            (λ (t : Bool).
              if t then append_cut b.buf b.line_at (start (i + 1)) (i + 1) b else moved (i + 1) b)
            taken in
      let (s, ends) =
        joined_ends b.buf line lineend (slice b.r (start (i + 1)) i) b';'
          (slice_snoc b.r (start (i + 1)) i b';' early (omega (arith, ok.counted)) c) in
      (
        s,
        ap (λ (x : Stmt). runes x.buf) runs
            ∙ append_cut-text b.buf b.line_at (start (i + 1)) (i + 1) b refl apart ok.measured
            ∙ ends,
      )

  finish-Outcome :
      (ready : Bool) (p : Parsed)
      → IsValid p.stmt
      → p.stmt.line_at ≡ none
      → Ends ready p
      → Outcome ready (finish p)
  finish-Outcome ready p ok apart (Ends.used_up cmd params same over) =
      let kept = appended-kept p in
      let ok' = parsed-IsValid p ok in
      unfold finish in
      used_up cmd params (kept.same_ready ∙ same) (
        drop_all (append_parsed p).r (min p.i (append_parsed p).rlen)
          (omega (arith, kept.same_rlen, ok'.counted)))
  finish-Outcome ready p ok apart (Ends.command name cmd same closed) =
      unfold finish in
      command name cmd ((appended-kept p).same_ready ∙ same) (finish-IsClosed p closed)
  finish-Outcome ready p ok apart (Ends.terminated cmd params set closed (i, at, inside, c)) =
      unfold finish in
      terminated cmd params ((appended-kept p).same_ready ∙ set) (finish-IsClosed p closed)
        (finish-text p i ok apart at inside c)

  module _ (unquote : Runes → Bool → Unquoted) where
    parse_line-Outcome :
        (fuel : ℕ) (b : Stmt) (x : Read)
        → IsValid b
        → b.line_at ≡ none
        → parse_line unquote fuel b ≡ some x
        → Outcome b.ready x
    unfolding parse_line
    parse_line-Outcome fuel b x ok apart is = elim (Option-cases (parse_loop unquote fuel b 0)) [
      | inl ran_out ↦ absurd (none_is_not_some x (rw ran_out at is))
      | inr (p, ended) ↦ subst (Outcome b.ready) (some-injective (finish p) x (rw ended at is)) (
          finish-Outcome b.ready p (loop-IsValid unquote fuel b 0 p ok ended)
            (loop-StaysApart unquote fuel b 0 p apart ended)
            (loop-Ends unquote fuel b 0 p ok ended))
    ]

    fetch_line-Outcome :
        (fuel : ℕ) (got : Fetched) (e : Option Error) (b : Stmt) (x : Read)
        → IsValid (record b { r = [] })
        → fetch_line unquote fuel got e b ≡ some x
        → x.err ≡ none
        → Outcome b.ready x
    unfolding fetch_line
    fetch_line-Outcome fuel got none b x ok is fine =
        parse_line-Outcome fuel
          (record b { r = got.line; rest = got.rest; rlen = length got.line; line_at = none }) x
          (record {
            counted = refl;
            measured = ok.measured;
            one_mode = ok.one_mode;
            quotes = ok.quotes;
            tagged = ok.tagged;
          })
          refl is
    fetch_line-Outcome fuel got (some e) b x ok is fine =
        absurd
          (none_is_not_some e (sym fine ∙ sym (ap (λ (y : Read). y.err) (some-injective _ x is))))

    -- A call of `Next` that returns no error, on a sound buffer whose line is used up or does not share its
    -- array with the text, returns for one of three reasons: the line is used up, with no command and the
    -- flag as it was; or a command was read, which begins with its backslash, with no string, comment or
    -- parenthesis open; or a semicolon was met with none of these open, the buffer is ready, and its text
    -- ends in that semicolon.
    pub next-Outcome :
        (fuel : ℕ) (got : Fetched) (b : Stmt) (x : Read)
        → IsSound b
        → (b.rlen ≡ 0) ⊎ (b.line_at ≡ none)
        → next unquote fuel got b ≡ some x
        → x.err ≡ none
        → Outcome b.ready x
    unfolding next
    next-Outcome fuel got b x ok apart is fine = elim (Bool-cases (b.rlen == 0)) [
      | inl used ↦
          fetch_line-Outcome fuel got got.err b x (used_line b ok (ground arith)) (rw used at is)
            fine
      | inr left ↦
          parse_line-Outcome fuel b x (left_line b ok left) (on_left apart left) (rw left at is)
    ]
      where
        on_left : (b.rlen ≡ 0) ⊎ (b.line_at ≡ none) → (b.rlen == 0) ≡ false → b.line_at ≡ none
        on_left (inl used) left = absurd (ground (arith, used, left))
        on_left (inr apart) left = apart
