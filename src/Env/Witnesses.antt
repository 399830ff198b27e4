-- ===== src/Env/Witnesses.antt =====
-- The theorems about the settings and the variables, applied at concrete ones.
use usql.Base.{ℕ, ◌+◌, refl, ◌&&◌, leb, if◌then◌else◌, true, codes, Table}
use usql.Env.Settings.{initial_pvars, pset, ptoggle}
use usql.Env.Settings.Sound.{IsFine}
use usql.Env.Settings.Reached.{initial, Reached-IsFine}
use usql.Env.Variables.{Environment, initial_vars, set}
use usql.Env.Variables.Switches
use usql.Stmt.Rune.{Unicode, ascii_unicode}

abbrev ascii_lower : ℕ → ℕ
ascii_lower c = if leb b'A' c && leb c b'Z' then c + 32 else c

abbrev start : Table
start = initial_pvars (codes "en-US") true

Reached-IsFine_example :
    IsFine start (codes "format") (pset ascii_lower start (codes "format") (codes "csv"))
    × IsFine start (codes "format") (ptoggle start (codes "format") (codes "html"))
Reached-IsFine_example =
    Reached-IsFine ascii_lower start (codes "format") (codes "csv") (codes "html")
      (initial (codes "en-US") true) refl

instance abbrev tables : Unicode
tables = ascii_unicode

abbrev environment : Environment
environment = record {
  host_information = codes "true";
  pager = codes "less";
  editor = codes "vi";
  syntax_hl = codes "true";
  syntax_format = codes "terminal256";
  ssl_mode = codes "retry";
}

abbrev stopping : Table
stopping = (set ascii_lower (initial_vars environment) (codes "ON_ERROR_STOP") (codes "TRUE")).vars
