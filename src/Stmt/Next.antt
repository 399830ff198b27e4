-- ===== src/Stmt/Next.antt =====
-- stmt/stmt.go: `Next`, as the rounds of its loop, the loop, and what follows it.
pub mod Work
pub mod Cases
pub mod Loop
pub mod Ends
pub mod Keeps
pub mod Valid
pub mod Outcome
pub mod Apart
mod Appended
mod Kept
pub mod Returns
pub mod Diverges
use mathlib.Core.Option
use usql.Base.{
  ℕ, zero, suc, ◌+◌, ◌-◌, Bool, true, false, not, ◌&&◌, ◌||◌, Option, none, some, List, [], ◌∷◌,
  ◌++◌, ltb, ◌==◌, if◌then◌else◌, Runes, length, take, drop, copy, same, min,
}
use usql.Failure.{Error}
use usql.Stmt.Buffer.{Stmt, comments, runes, append, append_shared}
use usql.Stmt.Command.{read_command}
use usql.Stmt.Prefix.{find_prefix}
use usql.Stmt.Quote.{Dollar, read_dollar_and_tag, read_string, read_multiline_comment}
use usql.Stmt.Rune.{Unicode}
use usql.Stmt.Scan.{rune_at, slice, grab, find_non_space, is_empty_line}
use usql.Stmt.Splice.{copy_at, grow, replace_array, substitute_var}
use usql.Stmt.Variable.{Var, read_var}

-- Where the loop ended: the buffer, the position, the command and its parameters.
pub record Parsed : Type 0 where
  pub stmt : Stmt
  pub i : ℕ
  pub cmd : Runes
  pub params : Runes

-- What `Next` leaves and returns.
pub record Read : Type 0 where
  pub stmt : Stmt
  pub cmd : Runes
  pub params : Runes
  pub err : Option Error

-- `lineend`
abbrev pub lineend : Runes
lineend = b'\n' ∷ []

-- What the callback `unquote` returns.
pub record Unquoted : Type 0 where
  pub ok : Bool
  pub text : Runes
  pub err : Option Error

-- What a call of the rune source returns: a line in an array of its own, with what is behind it there.
pub record Fetched : Type 0 where
  pub line : Runes
  pub rest : Runes
  pub err : Option Error

-- A round of the loop goes on at a position, or breaks there with a command and its parameters.
pub data Round : Type 0 where
  move : Stmt → ℕ → Round
  break : Stmt → ℕ → Runes → Runes → Round

-- `case b.quote != 0`
pub in_string : Stmt → ℕ → Round
in_string b i =
    let (pos, closed) = read_string b.r i b.rlen b.quote b.quote_dollar_tag in
    if closed
    then move (record b { quote = 0; quote_dollar_tag = [] }) (pos + 1)
    else move b (pos + 1)

-- `case b.multilineComment`
pub in_comment : Stmt → ℕ → Round
in_comment b i =
    let (pos, closed) = read_multiline_comment b.r i b.rlen in
    move (record b { multiline_comment = not closed }) (pos + 1)

-- `case b.allowDollar && c == '$'`
pub at_dollar : Stmt → ℕ → Round
at_dollar b i =
    let d = read_dollar_and_tag b.r i b.rlen in
    if d.valid
    then move (record b { quote = b'$'; quote_dollar_tag = d.id }) (d.at + 1)
    else move b (d.at + 1)

-- `v.I += b.Len + 1`
pub placed : Stmt → Var → Var
placed b v = if b.len == 0 then v else record v { i = v.i + (b.len + 1) }

pub quoted_name : Var → Runes
quoted_name v = let q = if v.quote == 0 then [] else v.quote ∷ [] in q ++ (v.name ++ q)

-- The text, after the array of the line has become `a`.
unfoldable pub text_over : Option ℕ → Runes → Option Runes → Option Runes
text_over none a buf = buf
text_over (some p) a none = none
text_over (some p) a (some s) = some (take p s ++ copy (drop p s) a)

-- The line `v.r`, grown to an array of its own or not.
abbrev is_grown : Stmt → ℕ → Bool
is_grown b tlen = ltb (length b.r + length b.rest) tlen

-- The variable `v` replaced by `z`, recorded, and read again from its start on.
pub replaced : Stmt → Var → Runes → Stmt
unfolding placed text_over grow copy_at
replaced b v z =
    let (w, r, rlen) = substitute_var b.r b.rest v z in
    let a = replace_array b.r b.rest v.i v.end z in
    record b {
      vars = b.vars ++ placed b w ∷ [];
      r = r;
      rest = drop rlen a;
      rlen = rlen;
      buf = text_over (if is_grown b rlen then none else b.line_at) a b.buf;
      line_at = if is_grown b rlen then none else b.line_at;
    }

pub at_variable : (Runes → Bool → Unquoted) → Stmt → ℕ → Option Var → Round
unfolding placed replaced quoted_name
at_variable unquote b i none = move b (i + 1)
at_variable unquote b i (some v) =
    let value = unquote (quoted_name v) true in
    if value.ok
    then move (replaced b (record v { defined = true }) value.text) i
    else move (record b { vars = b.vars ++ placed b v ∷ [] }) (i + 1)

-- A backslash before a backslash, a semicolon or a colon.
pub at_escape : Stmt → ℕ → ℕ → Round
unfolding replaced
at_escape b i next =
    let v : Var = record {
      i = i;
      end = i + 2;
      quote = b'\\';
      name = next ∷ [];
      len = 0;
      defined = false;
    } in
    move (replaced b v (next ∷ [])) (i + 1)

pub at_command : Stmt → ℕ → Round
unfolding text_over copy_at
at_command b i =
    let (cend, pend) = read_command b.r i b.rlen in
    let r = take i b.r ++ drop pend b.r in
    let a = copy_at (b.r ++ b.rest) i (drop pend b.r) in
    break
      (record b {
        r = r;
        rest = drop (length r) a;
        rlen = length r;
        buf = text_over b.line_at a b.buf;
      })
      i (slice b.r i cend) (slice b.r cend pend)

module _ ⦃u : Unicode⦄ where
  pub round : (Runes → Bool → Unquoted) → Stmt → ℕ → Round
  unfolding in_string in_comment at_dollar at_variable at_escape at_command
  round unquote b i =
      let c = rune_at b.r i in
      let next = grab b.r (i + 1) b.rlen in
      if not (b.quote == 0)
      then in_string b i
      else if b.multiline_comment
      then in_comment b i
      else if c == b'\'' || c == b'"'
      then move (record b { quote = c }) (i + 1)
      else if b.allow_dollar && c == b'$'
      then at_dollar b i
      else if c == b'-' && next == b'-'
      then move b (b.rlen + 1)
      else if b.allow_c_comments && c == b'/' && next == b'/'
      then move b (b.rlen + 1)
      else if b.allow_hash_comments && c == b'#'
      then move b (b.rlen + 1)
      else if b.allow_multiline_comments && c == b'/' && next == b'*'
      then move (record b { multiline_comment = true }) (i + 2)
      else if c == b':' && not (next == b':')
      then at_variable unquote b i (read_var b.r i b.rlen)
      else if c == b'('
      then move (record b { balance_count = b.balance_count + 1 }) (i + 1)
      else if c == b')'
      then move (record b { balance_count = b.balance_count - 1 }) (i + 1)
      else if not (b.balance_count == 0)
      then move b (i + 1)
      else if c == b'\\' && (next == b'\\' || next == b';' || next == b':')
      then at_escape b i next
      else if c == b'\\'
      then at_command b i
      else if c == b';'
      then break (record b { ready = true }) (i + 1) [] []
      else move b (i + 1)

  -- The loop: `none` means that the fuel ran out before it ended.
  pub parse_loop : (Runes → Bool → Unquoted) → ℕ → Stmt → ℕ → Option Parsed
  parse_loop unquote zero b i = none
  parse_loop unquote (suc fuel) b i = elim (ltb i b.rlen) [
    | false ↦ some (record { stmt = b; i = i; cmd = []; params = [] })
    | true ↦ elim (round unquote b i) [
      | move b' j ↦ parse_loop unquote fuel b' j
      | break b' j cmd params ↦ some (record { stmt = b'; i = j; cmd = cmd; params = params })
    ]
  ]

  -- What is left of the line begins behind `i`.
  abbrev pub moved : ℕ → Stmt → Stmt
  moved i b = record b { line_at = Option.map (λ (p : ℕ). p + i) b.line_at }

  -- Whether the line goes to `b.Buf`.
  pub append_line : Parsed → Bool → Bool
  append_line p empty =
      if not p.stmt.multiline_comment && not (same p.cmd []) && empty
      then false
      else not (p.stmt.quote == 0) || p.stmt.multiline_comment || not empty

  -- `Append` of the line from `st` up to `i`, and the place of what is left of it behind `i`.
  unfoldable pub append_cut : Option Runes → Option ℕ → ℕ → ℕ → Stmt → Stmt
  unfolding append append_shared
  append_cut none at_p st i b = record (append [] (slice b.r st i) lineend b) {
    line_at = some (i - st);
  }
  append_cut (some s) none st i b = append [] (slice b.r st i) lineend b
  append_cut (some s) (some p) st i b = moved i (append_shared s p st i lineend b)

  pub append_parsed : Parsed → Stmt
  unfolding append_line append_cut
  append_parsed p =
      let b = p.stmt in
      let i = min p.i b.rlen in
      let st = if b.len == 0 then (find_non_space b.r 0 i).0 else 0 in
      if append_line p (is_empty_line b.r 0 i) then append_cut b.buf b.line_at st i b else moved i b

  -- What follows the loop.
  pub finish : Parsed → Read
  unfolding append_parsed
  finish p =
      let b = append_parsed p in
      let i = min p.i b.rlen in
      let rest = drop i b.r in
      record {
        stmt = record b {
          prefix = find_prefix (runes b.buf) (comments b);
          r = rest;
          rlen = length rest;
        };
        cmd = p.cmd;
        params = p.params;
        err = none;
      }

  pub parse_line : (Runes → Bool → Unquoted) → ℕ → Stmt → Option Read
  unfolding parse_loop finish
  parse_line unquote fuel b = Option.map finish (parse_loop unquote fuel b 0)

  pub fetch_line : (Runes → Bool → Unquoted) → ℕ → Fetched → Option Error → Stmt → Option Read
  unfolding parse_line
  fetch_line unquote fuel got (some e) b = some (record {
    stmt = record b { r = got.line; rest = got.rest; line_at = none };
    cmd = [];
    params = [];
    err = some e;
  })
  fetch_line unquote fuel got none b =
      parse_line unquote fuel
        (record b { r = got.line; rest = got.rest; rlen = length got.line; line_at = none })

  -- `got` is what `b.f()` returns, if `Next` calls it.
  unfoldable pub next : (Runes → Bool → Unquoted) → ℕ → Fetched → Stmt → Option Read
  unfolding round parse_line fetch_line
  next unquote fuel got b =
      if b.rlen == 0 then fetch_line unquote fuel got got.err b else parse_line unquote fuel b
