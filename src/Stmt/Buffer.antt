-- ===== src/Stmt/Buffer.antt =====
-- stmt/stmt.go: the statement buffer, its options, and the operations beside `Next`.
pub mod Append
pub mod Raw
use usql.Base.{
  ℕ, ◌+◌, ◌-◌, ◌*◌, ◌%◌, Bool, true, false, not, Option, none, some, List, [], ◌∷◌, ◌++◌, ltb, leb,
  ◌==◌, if◌then◌else◌, Runes, Bytes, utf8, length, take, drop, copy,
}
use usql.Stmt.Prefix.{Comments}
use usql.Stmt.Scan.{slice}
use usql.Stmt.Splice.{copy_at, zeros}
use usql.Stmt.Variable.{Var}

-- `buf` is `none` for a nil slice, and `rest` is the stale rest of the array of `r` behind it. Where the text and the
-- line share an array, `line_at` is the place of the line in it, from the start of the text on: behind the
-- text, or in it. The rune source `f` is no field: what a call of it returns is an
-- argument of `next`.
pub record Stmt : Type 0 where
  pub allow_dollar : Bool
  pub allow_multiline_comments : Bool
  pub allow_c_comments : Bool
  pub allow_hash_comments : Bool
  pub buf : Option Runes
  pub len : ℕ
  pub prefix : Runes
  pub vars : List Var
  pub r : Runes
  pub rest : Runes
  pub rlen : ℕ
  pub line_at : Option ℕ
  pub quote : ℕ
  pub quote_dollar_tag : Runes
  pub multiline_comment : Bool
  pub balance_count : ℕ
  pub ready : Bool

abbrev pub comments : Stmt → Comments
comments b = record {
  c_style = b.allow_c_comments;
  hash = b.allow_hash_comments;
  multiline = b.allow_multiline_comments;
}

abbrev pub runes : Option Runes → Runes
runes none = []
runes (some s) = s

-- A statement buffer option.
pub data StmtOption : Type 0 where
  with_allow_dollar : Bool → StmtOption
  with_allow_multiline_comments : Bool → StmtOption
  with_allow_c_comments : Bool → StmtOption
  with_allow_hash_comments : Bool → StmtOption

unfoldable pub apply : StmtOption → Stmt → Stmt
apply (with_allow_dollar on) b = record b { allow_dollar = on }
apply (with_allow_multiline_comments on) b = record b { allow_multiline_comments = on }
apply (with_allow_c_comments on) b = record b { allow_c_comments = on }
apply (with_allow_hash_comments on) b = record b { allow_hash_comments = on }

unfoldable pub apply_all : List StmtOption → Stmt → Stmt
unfolding apply
apply_all [] b = b
apply_all (o ∷ opts) b = apply_all opts (apply o b)

-- `&Stmt{f: f}`
abbrev pub zero_stmt : Stmt
zero_stmt = record {
  allow_dollar = false;
  allow_multiline_comments = false;
  allow_c_comments = false;
  allow_hash_comments = false;
  buf = none;
  len = 0;
  prefix = [];
  vars = [];
  r = [];
  rest = [];
  rlen = 0;
  line_at = none;
  quote = 0;
  quote_dollar_tag = [];
  multiline_comment = false;
  balance_count = 0;
  ready = false;
}

unfoldable pub new : List StmtOption → Stmt
unfolding apply_all
new opts = apply_all opts zero_stmt

unfoldable pub string : Stmt → Runes
string b = runes b.buf

-- The runes to go on with, and what is behind them in their array, are `none` for nil, and the old ones stay.
reset_runes : Option (Runes × Runes) → Stmt → Stmt
reset_runes none b = b
reset_runes (some (r, rest)) b = record b { r = r; rest = rest; rlen = length r }

unfoldable pub reset : Option (Runes × Runes) → Stmt → Stmt
unfolding reset_runes
reset r b = reset_runes r (record b {
  buf = none;
  len = 0;
  prefix = [];
  vars = [];
  quote = 0;
  quote_dollar_tag = [];
  multiline_comment = false;
  balance_count = 0;
  ready = false;
  line_at = none;
})

abbrev pub min_cap_increase : ℕ
min_cap_increase = 512

-- The capacity that `Append` grows to.
unfoldable pub grown_cap : ℕ → ℕ → ℕ
grown_cap tlen rlen = let n = tlen + 2 * rlen in n + (min_cap_increase - n % min_cap_increase)

-- The array that `Append` writes to; `spare` is the stale rest of the array of `buf`.
pub append_array : Runes → Runes → ℕ → ℕ → ℕ → Runes
unfolding grown_cap zeros
append_array buf spare blen tlen rlen =
    if ltb (length buf + length spare) tlen
    then copy (zeros blen) buf ++ zeros (grown_cap tlen rlen - blen)
    else buf ++ spare

-- The text and the length behind `Append` to a buffer that is not nil.
pub append_text : Runes → Runes → ℕ → Runes → Runes → Runes × ℕ
unfolding append_array copy_at
append_text buf spare blen r sep =
    let tlen = blen + length r + length sep in
    let z = take tlen (append_array buf spare blen tlen (length r)) in
    (copy_at (copy_at z blen sep) (blen + length sep) r, tlen)

unfoldable pub append_to : Option Runes → Runes → Runes → Runes → Stmt → Stmt
unfolding append_text
append_to none spare r sep b = record b { buf = some r; len = length r }
append_to (some buf) spare r sep b =
    let (z, tlen) = append_text buf spare b.len r sep in record b { buf = some z; len = tlen }

-- `Append` of runes in an array of their own.
unfoldable pub append : Runes → Runes → Runes → Stmt → Stmt
unfolding append_to
append spare r sep b = append_to b.buf spare r sep b

-- The text `s` and the line `r` with its rest, in one array from the start of the text on.
abbrev pub shared_array : Runes → ℕ → Runes → Runes → Runes
shared_array s p r rest = take p s ++ (zeros (p - length s) ++ (r ++ rest))

-- The array of the text and the line behind `Append` of the runes from `st` up to `i` of the line, where the
-- array has room: the separator is written before the runes are read.
unfoldable pub shared_text : Runes → ℕ → ℕ → ℕ → ℕ → Runes → Runes
unfolding copy_at zeros
shared_text x blen p st i sep =
    let y = copy_at x blen sep in copy_at y (blen + length sep) (slice y (p + st) (p + i))

-- The text in the array.
unfoldable pub filled_shared : ℕ → ℕ → ℕ → Runes → Stmt → Stmt
filled_shared tlen p n x b = record b {
  buf = some (take tlen x);
  len = tlen;
  r = take n (drop p x);
  rest = drop n (drop p x);
}

-- `Append` of the runes from `st` up to `i` of the line, which lies at `p` in the array of the text `s`. The
-- line is at another place then, or in an array of its own.
unfoldable pub append_shared : Runes → ℕ → ℕ → ℕ → Runes → Stmt → Stmt
unfolding zeros shared_text filled_shared append_to
append_shared s p st i sep b =
    let x = shared_array s p b.r b.rest in
    let r = slice b.r st i in
    let tlen = b.len + length r + length sep in
    if ltb (length x) tlen
    then record (append_to (some s) [] r sep b) { line_at = none }
    else filled_shared tlen p (length b.r) (shared_text x b.len p st i sep) b

-- `AppendString`, whose strings are given as runes.
unfoldable pub append_string : Runes → Runes → Runes → Stmt → Stmt
unfolding append
append_string spare s sep b = append spare s sep b

-- `string(b.quote)` and the other marks of `State`.
unfoldable pub state : Stmt → Runes
state b =
    if not (b.quote == 0)
    then b.quote ∷ []
    else if b.multiline_comment
    then b'*' ∷ []
    else if not (b.balance_count == 0)
    then b'(' ∷ []
    else if not (b.len == 0)
    then b'-' ∷ []
    else b'=' ∷ []

-- How `RawString` writes a variable.
pub spelled : Var → Bytes
spelled v =
    (if v.quote == b'\\' then [] else b':' ∷ [])
    ++ ((if v.quote == 0 then [] else utf8 (v.quote ∷ []))
        ++ (utf8 v.name
            ++ (if v.quote == 0 then [] else if v.quote == b'\\' then [] else utf8 (v.quote ∷ []))))

-- The loop of `RawString` over the variables, from byte `i` of `s` on, with the output `z` so far.
-- `none` is the panic of a slice out of range.
unfoldable pub raw_loop : Bytes → List Var → ℕ → Bytes → Option Bytes
unfolding spelled
raw_loop s [] i z = some (if ltb i (length s) then z ++ drop i s else z)
raw_loop s (v ∷ vars) i z =
    let skipped = raw_loop s vars i z in
    let cut = raw_loop s vars (v.i + v.len) (z ++ (slice s i v.i ++ spelled v)) in
    let behind = raw_loop s vars (v.i + v.len) (z ++ spelled v) in
    if not v.defined
    then skipped
    else if ltb i (length s)
    then if leb i v.i then if leb v.i (length s) then cut else none else none
    else behind

unfoldable pub raw_string : Stmt → Option Bytes
unfolding raw_loop
raw_string b = if b.len == 0 then some [] else raw_loop (utf8 (runes b.buf)) b.vars 0 []
