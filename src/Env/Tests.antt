-- ===== src/Env/Tests.antt =====
-- Runs of the settings and the variables.
use usql.Base.{ℕ, ◌+◌, ◌≡◌, refl, true, false, ◌&&◌, leb, if◌then◌else◌, Runes, codes, Table}
use usql.Env.Parse.{atoi, format_int, decimal_loop, parse_uint, parse_bool, parse_keyword_bool}
use usql.Env.Settings.{Changed, kind, initial_pvars, pset, go_time}
use usql.Env.Variables.{valid_identifier}
use usql.Stmt.Rune.{Unicode, ascii_unicode}

abbrev ascii_lower : ℕ → ℕ
ascii_lower c = if leb b'A' c && leb c b'Z' then c + 32 else c

abbrev start : Table
start = initial_pvars (codes "en-US") true

-- The value returned, `error` or `panic`.
said : Changed → Runes
said (Changed.returned t v) = v
said (Changed.failed t e) = codes "error"
said Changed.panicked = codes "panic"

set_said : Runes → Runes → Runes
unfolding said pset kind parse_bool parse_keyword_bool atoi parse_uint format_int decimal_loop
set_said name value = said (pset ascii_lower start name value)

set_number : set_said (codes "border") (codes "+0042") ≡ codes "42"
unfolding set_said
set_number = refl

set_negative : set_said (codes "columns") (codes "-7x") ≡ codes "0"
unfolding set_said
set_negative = refl

set_huge :
    set_said (codes "columns") (codes "-99999999999999999999x") ≡ codes "-9223372036854775808"
unfolding set_said
set_huge = refl

set_pager : set_said (codes "pager") (codes "Always") ≡ codes "always"
unfolding set_said
set_pager = refl

set_format : set_said (codes "format") (codes "tsv") ≡ codes "error"
unfolding set_said
set_format = refl

default_time : go_time start ≡ codes "2006-01-02T15:04:05.999999999Z07:00"
unfolding go_time
default_time = refl

instance abbrev tables : Unicode
tables = ascii_unicode

bad_identifier : valid_identifier (codes "a-b") ≡ false
unfolding valid_identifier
bad_identifier = refl
