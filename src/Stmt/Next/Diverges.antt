-- ===== src/Stmt/Next/Diverges.antt =====
-- `Next` reads what it puts for a variable again from its start, so that a variable whose value is its own
-- spelling keeps it busy for ever.
use mathlib.Core.Option
use mathlib.Core.Option.{some-injective}
use usql.Base.{
  ℕ, zero, suc, ◌+◌, ◌-◌, ◌≡◌, refl, ap, ◌∙◌, Bool, true, false, Option, none, some, [], ◌∷◌, ◌++◌,
  arith, Runes, length, get_or, drop, take, lt→ltb, take_append_length, drop_append_length,
  append-nil, length-append,
}
use usql.Stmt.Buffer.{Stmt}
use usql.Stmt.Next.Cases.{IsPlain}
use usql.Stmt.Next.Ends.{Counted, replaced_lem}
use usql.Stmt.Next.Loop.{loop_move}
use usql.Stmt.Next.{
  Unquoted, move, replaced, quoted_name, at_variable, round, parse_loop, parse_line, fetch_line,
  next,
}
use usql.Stmt.Rune.{Unicode}
use usql.Stmt.Scan.Suffix.{rune_here, grab_after}
use usql.Stmt.Scan.{grab, rune_at}
use usql.Stmt.Variable.RoundTrip.{AreNameRunes, not_mark, read_var-stops}
use usql.Stmt.Variable.{Var, plain_var, name_rune, read_var}

module _ ⦃u : Unicode⦄ (unquote : Runes → Bool → Unquoted) (c : ℕ) (name rest : Runes)
    (names : AreNameRunes (c ∷ name)) (stops : name_rune (get_or rest 0 0) ≡ false)
    (known : (unquote (c ∷ name) true).ok ≡ true)
    (itself : (unquote (c ∷ name) true).text ≡ b':' ∷ c ∷ name) where
  abbrev line : Runes
  line = b':' ∷ c ∷ (name ++ rest)

  -- The variable at the start of the line.
  abbrev v : Var
  v = plain_var line 0 (0 + 1 + length (c ∷ name))

  name_read : quoted_name v ≡ c ∷ name
  unfolding quoted_name
  name_read =
      ap (λ (n : ℕ). take n (c ∷ (name ++ rest)) ++ []) (less (length name))
      ∙ append-nil (take (suc (length name)) (c ∷ (name ++ rest)))
      ∙ take_append_length (c ∷ name) rest
    where
      less : (n : ℕ) → 0 + 1 + suc n - (0 + 1) ≡ suc n
      less n = omega arith

  at_colon :
      (b : Stmt)
      → IsPlain b
      → rune_at b.r 0 ≡ b':'
      → grab b.r (0 + 1) b.rlen ≡ c
      → round unquote b 0 ≡ at_variable unquote b 0 (read_var b.r 0 b.rlen)
  unfolding round
  at_colon b plain colon second =
      rw (plain.unquoted, plain.code, colon, second, not_mark c b':' names.0 (omega arith) refl)
        (ground arith)

  replaced_again :
      (o : Option Var) (b : Stmt)
      → o ≡ some v
      → at_variable unquote b 0 o
        ≡ move (replaced b (record v { defined = true }) (b':' ∷ c ∷ name)) 0
  unfolding at_variable
  replaced_again none b e = cc
  replaced_again (some w) b e = rw (some-injective w v e, name_read, known, itself) refl

  -- A round puts the variable for itself.
  round_again :
      (b : Stmt)
      → IsPlain b
      → Counted b
      → b.r ≡ line
      → (b' : Stmt) × (round unquote b 0 ≡ move b' 0) × IsPlain b' × Counted b' × (b'.r ≡ line)
  round_again b plain counted is =
      let colon = rune_here b.r 0 b':' (c ∷ (name ++ rest)) is in
      let second : grab b.r (0 + 1) b.rlen ≡ c =
        ap (grab b.r (0 + 1)) counted ∙ grab_after b.r 0 b':' (c ∷ (name ++ rest)) is in
      let reads : read_var b.r 0 b.rlen ≡ some v =
        ap (read_var b.r 0) counted
        ∙ read_var-stops b.r 0 c name rest is names stops
        ∙ ap (λ (x : Runes). some (plain_var x 0 (0 + 1 + length (c ∷ name)))) is in
      let (text, counted') =
        replaced_lem b (record v { defined = true }) (b':' ∷ c ∷ name) (omega arith)
          (omega (arith, ap length is, length-append name rest)) in
      let back : b.r ≡ line = is in
      (
        replaced b (record v { defined = true }) (b':' ∷ c ∷ name),
        at_colon b plain colon second ∙ replaced_again (read_var b.r 0 b.rlen) b reads,
        record {
          unquoted = unfold replaced in plain.unquoted;
          code = unfold replaced in plain.code;
        },
        counted',
        text
            ∙ ap (λ (x : Runes). b':' ∷ c ∷ (name ++ x))
                (ap (drop (0 + 1 + length (c ∷ name))) is ∙ behind),
      )
    where
      one : (n : ℕ) → 0 + 1 + suc n ≡ suc (suc n)
      one n = omega arith

      behind : drop (0 + 1 + length (c ∷ name)) line ≡ rest
      behind =
          ap (λ (n : ℕ). drop n line) (one (length name))
          ∙ drop_append_length (b':' ∷ c ∷ name) rest

  loop_never_ends :
      (fuel : ℕ) (b : Stmt)
      → IsPlain b
      → Counted b
      → b.r ≡ line
      → parse_loop unquote fuel b 0 ≡ none
  loop_never_ends zero b plain counted is = unfold parse_loop in refl
  loop_never_ends (suc fuel) b plain counted is =
      let (b', on, plain', counted', is') = round_again b plain counted is in
      loop_move unquote fuel b 0 b' 0 (lt→ltb 0 b.rlen (omega (arith, counted, ap length is))) on
      ∙ loop_never_ends fuel b' plain' counted' is'

  -- A line that starts with a variable whose value is its own spelling, as after `\set a :a`: no fuel is enough for
  -- `Next`, whatever follows the variable, if no string or comment is open.
  pub next_never_ends :
      (fuel : ℕ) (behind : Runes) (b : Stmt)
      → IsPlain b
      → b.rlen ≡ 0
      → next unquote fuel (record { line = line; rest = behind; err = none }) b ≡ none
  unfolding next fetch_line parse_line
  next_never_ends fuel behind b plain used = rw (used) (
      ap (Option.map _) (
        loop_never_ends fuel
          (record b { r = line; rest = behind; rlen = length line; line_at = none })
          (record { unquoted = plain.unquoted; code = plain.code }) refl refl))
