-- ===== src/Stmt/Witnesses.antt =====
-- The theorems about the statement buffer, applied at concrete lines.
use usql.Base.{
  ◌≡◌, refl, Bool, true, false, none, some, [], ◌∷◌, inl, Runes, not, ◌==◌, codes, same, arith,
  length,
}
use usql.Stmt.Buffer.{Stmt, with_allow_dollar, new, append, raw_string}
use usql.Stmt.Command.Bounds.{Spans, read_command-Spans}
use usql.Stmt.Command.{read_command}
use usql.Stmt.Next.Diverges.{next_never_ends}
use usql.Stmt.Next.Ends.{next_ends}
use usql.Stmt.Next.Returns.{Outcome, next-Outcome}
use usql.Stmt.Scan.Find.{IsFirst, find-IsFirst}
use usql.Stmt.Buffer.Raw.{bound, bare, raw_string_lem}
use usql.Stmt.Next.Valid.{IsSound, made, Used-IsSound}
use usql.Stmt.Next.{Unquoted, Fetched, Read, next}
use usql.Stmt.Quote.RoundTrip.{sql_quoted, read_string-sql_quoted}
use usql.Stmt.Quote.{read_string}
use usql.Stmt.Rune.{Unicode, ascii_unicode, is_space_or_control, is_space, is_control}
use usql.Stmt.Splice.Refines.{substitute_lem, substitute_var_lem}
use usql.Stmt.Scan.{grab, find_space, find_non_space, find_rune, is_empty_line}
use usql.Stmt.Prefix.{find_prefix}
use usql.Stmt.Splice.{substitute, substitute_var}
use usql.Stmt.Variable.Bounds.{IsRead, read_var-IsRead}
use usql.Stmt.Variable.RoundTrip.{read_var-plain_var}
use usql.Stmt.Variable.{Var, name_rune, read_var}

instance abbrev tables : Unicode
tables = ascii_unicode

-- The only variable is `a`; its value is given.
abbrev knows : Runes → Runes → Bool → Unquoted
knows value s isvar = record { ok = same s (codes "a"); text = value; err = none }

abbrev line : Runes → Fetched
line r = record { line = r; rest = []; err = none }

abbrev fresh : Stmt
fresh = new (with_allow_dollar true ∷ [])

next_ends_example :
    (x : Read) × (next (knows (codes "1")) 40 (line (codes "select :a;")) fresh ≡ some x)
unfolding new
next_ends_example =
    next_ends 1 (knows (codes "1")) (λ s e. (refl, omega arith)) 40 (line (codes "select :a;"))
      fresh refl (omega arith)

Used-IsSound_example : IsSound fresh
Used-IsSound_example = Used-IsSound (made (with_allow_dollar true ∷ []))

read_string-sql_quoted_example :
    read_string (codes "x = 'it''s'") 5 (length (codes "x = 'it''s'")) b'\'' [] ≡ (10, true)
unfolding sql_quoted
read_string-sql_quoted_example =
    read_string-sql_quoted (codes "x = '") (codes "it's") [] [] (omega arith)

next_never_ends_example : next (knows (codes ":a")) 1000 (line (codes ":a;")) fresh ≡ none
unfolding new name_rune
next_never_ends_example =
    next_never_ends (knows (codes ":a")) b'a' [] (codes ";") (refl, tt) refl refl refl 1000 [] fresh
      (record { unquoted = refl; code = refl }) refl

substitute_lem_example :
    substitute (codes "a :b c") (codes "zz") 2 2 (codes "xyz") ≡ (codes "a xyz c", 7)
substitute_lem_example =
    substitute_lem (codes "a ") (codes ":b") (codes " c") (codes "zz") (codes "xyz")

abbrev var_b : Var
var_b = record { i = 2; end = 4; quote = 0; name = codes "b"; len = 0; defined = true }

substitute_var_lem_example :
    substitute_var (codes "a :b c") (codes "zz") var_b (codes "xyz")
    ≡ (record var_b { len = 3 }, codes "a xyz c", 7)
substitute_var_lem_example =
    substitute_var_lem (codes "a :b c") (codes "zz") var_b (codes "xyz") (omega arith) (omega arith)

abbrev selected : Stmt
selected = record fresh { buf = some (codes "select"); len = 6 }

read_command-Spans_example : Spans 2 8 (read_command (codes "1 \\g out") 2 8)
read_command-Spans_example = read_command-Spans (codes "1 \\g out") 2 8 (omega arith)

abbrev var_a : Var
var_a = record { i = 2; end = 4; quote = 0; name = codes "a"; len = 0; defined = false }

read_var-plain_var_example : read_var (codes "x :a;") 2 5 ≡ some var_a
unfolding name_rune
read_var-plain_var_example =
    read_var-plain_var (codes "x :a;") 2 b'a' [] (codes ";") refl (refl, tt) refl

read_var-IsRead_example : IsRead (codes "x :a;") 2 5 var_a
unfolding read_var name_rune grab
read_var-IsRead_example = read_var-IsRead (codes "x :a;") 2 5 var_a (omega arith) refl

-- The buffer behind the line `1;`.
abbrev semicolon_stmt : Stmt
semicolon_stmt = record fresh {
  buf = some (codes "1;");
  len = 2;
  r = [];
  rlen = 0;
  line_at = some 2;
  ready = true;
}

abbrev semicolon_read : Read
semicolon_read = record { stmt = semicolon_stmt; cmd = []; params = []; err = none }

next-Outcome_example : Outcome false semicolon_read
unfolding new next find_prefix is_space_or_control append is_empty_line is_space is_control
    read_command find_non_space grab
next-Outcome_example =
    next-Outcome (knows (codes "1")) 40 (line (codes "1;")) fresh semicolon_read
      (Used-IsSound (made (with_allow_dollar true ∷ []))) (inl refl) refl refl

find-IsFirst_example :
    IsFirst is_space_or_control (codes "ab c") 0 4 2 true
    × IsFirst (λ d. not (is_space_or_control d)) (codes "ab c") 0 4 0 true
    × IsFirst (λ d. d == b'x') (codes "ab c") 0 4 4 false
unfolding find_space find_non_space find_rune is_space_or_control is_space is_control
find-IsFirst_example = find-IsFirst (codes "ab c") 0 4 b'x' (omega arith)

-- `select :a;` with the value `12` in place of `:a`.
abbrev var_12 : Var
var_12 = record { i = 7; end = 9; quote = 0; name = codes "a"; len = 2; defined = true }

abbrev with_12 : Stmt
with_12 = record fresh { buf = some (codes "select 12;"); len = 10; vars = var_12 ∷ [] }

raw_string_lem_example : raw_string with_12 ≡ some (codes "select :a;")
unfolding raw_string usql.Base.utf8
raw_string_lem_example =
    raw_string_lem with_12 (bound (codes "select ") var_12 (codes "12") (codes ":a") ∷ [])
      (codes ";") (omega arith) (omega arith) refl refl
      (refl, refl, refl, (omega arith, tt), bare refl, tt)
