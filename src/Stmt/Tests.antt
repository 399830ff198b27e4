-- ===== src/Stmt/Tests.antt =====
-- Runs of the statement buffer.
use usql.Base.{
  ◌≡◌, refl, Bool, true, false, Option, none, some, [], ◌∷◌, Runes, Bytes, utf8, codes, same,
}
use usql.Stmt.Buffer.{
  Stmt, with_allow_dollar, with_allow_multiline_comments, new, string, raw_string,
}
use usql.Stmt.Buffer.{append}
use usql.Stmt.Next.{Unquoted, Fetched, Read, next}
use usql.Stmt.Rune.{Unicode, ascii_unicode, is_space_or_control, is_space, is_control}
use usql.Stmt.Scan.{grab, find_non_space, find_rune, is_empty_line}
use usql.Stmt.Quote.{identifier_re, read_dollar_and_tag, read_string, read_multiline_comment}
use usql.Stmt.Variable.{read_var, name_rune}
use usql.Stmt.Command.{read_command}
use usql.Stmt.Prefix.{find_prefix}
use usql.Stmt.Splice.{substitute_var, append_upper_runes}

instance abbrev tables : Unicode
tables = ascii_unicode

-- The only variable is `a`, with the value `1`.
abbrev unquote : Runes → Bool → Unquoted
unquote s isvar = record { ok = same s (codes "a"); text = codes "1"; err = none }

abbrev line : Runes → Fetched
line r = record { line = r; rest = []; err = none }

abbrev postgres : Stmt
postgres = new (with_allow_dollar true ∷ with_allow_multiline_comments true ∷ [])

-- What is seen of the buffer behind a call of `Next` on a line: its text, the command and parameters
-- returned, whether it is ready, the prefix, and the raw text.
data Seen : Type 0 where
  seen : Runes → Runes → Runes → Bool → Runes → Option Bytes → Seen
  nothing : Seen

see : Option Read → Seen
see none = nothing
see (some r) = seen (string r.stmt) r.cmd r.params r.stmt.ready r.stmt.prefix (raw_string r.stmt)

run_line : Stmt → Runes → Seen
unfolding next see string raw_string grab read_var name_rune substitute_var is_empty_line
    find_prefix is_space_or_control append append_upper_runes utf8 read_string read_dollar_and_tag
    identifier_re read_multiline_comment read_command find_non_space find_rune is_space is_control
run_line b r = see (next unquote 100 (line r) b)

run_var :
    run_line postgres (codes "select :a; x")
    ≡ seen (codes "select 1;") [] [] true (codes "SELECT") (some (codes "select :a;"))
unfolding run_line new
run_var = refl

run_command :
    run_line postgres (codes "select 1 \\g out.csv")
    ≡ seen
        (codes "select 1 ")
        (codes "\\g")
        (codes " out.csv")
        false
        (codes "SELECT")
        (some (codes "select 1 "))
unfolding run_line new
run_command = refl

run_string :
    run_line postgres (codes "insert /* x */ into t values ('a;''b', $x$;$x$, (1;2));")
    ≡ seen
        (codes "insert /* x */ into t values ('a;''b', $x$;$x$, (1;2));")
        []
        []
        true
        (codes "INSERT INTO T VALUES")
        (some (codes "insert /* x */ into t values ('a;''b', $x$;$x$, (1;2));"))
unfolding run_line new
run_string = refl

-- A variable behind leading space makes `RawString` cut out of range.
run_indented : run_line postgres (codes "   :a;") ≡ seen (codes "1;") [] [] true [] none
unfolding run_line new
run_indented = refl

-- A positional parameter takes the rest of the line, its semicolon included.
run_positional :
    run_line postgres (codes "select $1;")
    ≡ seen (codes "select $1;") [] [] false (codes "SELECT") (some (codes "select $1;"))
unfolding run_line new
run_positional = refl

-- `RawString` does not give an escape its backslash back.
run_escape :
    run_line postgres (codes "a \\: b")
    ≡ seen (codes "a : b") [] [] false (codes "A") (some (codes "a : b"))
unfolding run_line new
run_escape = refl

-- Two calls of `Next` on one line, the buffer not reset in between: the separator is written over the line, which shares its
-- array with the text.
again : Option Read → Seen
unfolding run_line
again none = nothing
again (some r) = see (next unquote 100 (line []) r.stmt)

run_shared :
    again (next unquote 100 (record { line = codes "a;;"; rest = 0 ∷ []; err = none }) postgres)
    ≡ seen (codes "a;\n\n") [] [] true (codes "A") (some (codes "a;\n\n"))
unfolding again run_line new usql.Stmt.Buffer.append_shared
run_shared = refl
