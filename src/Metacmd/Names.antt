-- ===== src/Metacmd/Names.antt =====
-- metacmd/metacmd.go and metacmd/cmds.go: the names of the commands, and Decode.
use Prim.Native.String.{String}
use usql.Base.{
  ℕ, Option, none, some, List, [], ◌∷◌, ◌++◌, map, ◌==◌, ltb, if◌then◌else◌, Runes, codes, same,
  length,
}

-- The commands are numbered from None on.
abbrev pub Metacmd : Type 0
Metacmd = ℕ

abbrev none_cmd : Metacmd
none_cmd = 0

abbrev question_cmd : Metacmd
question_cmd = 1

abbrev quit_cmd : Metacmd
quit_cmd = 2

abbrev copyright_cmd : Metacmd
copyright_cmd = 3

abbrev connect_cmd : Metacmd
connect_cmd = 4

abbrev copy_cmd : Metacmd
copy_cmd = 5

abbrev disconnect_cmd : Metacmd
disconnect_cmd = 6

abbrev password_cmd : Metacmd
password_cmd = 7

abbrev connection_info_cmd : Metacmd
connection_info_cmd = 8

abbrev drivers_cmd : Metacmd
drivers_cmd = 9

abbrev describe_cmd : Metacmd
describe_cmd = 10

abbrev exec_cmd : Metacmd
exec_cmd = 11

abbrev edit_cmd : Metacmd
edit_cmd = 12

abbrev print_cmd : Metacmd
print_cmd = 13

abbrev reset_cmd : Metacmd
reset_cmd = 14

abbrev echo_cmd : Metacmd
echo_cmd = 15

abbrev write_cmd : Metacmd
write_cmd = 16

abbrev change_dir_cmd : Metacmd
change_dir_cmd = 17

abbrev set_env_cmd : Metacmd
set_env_cmd = 18

abbrev shell_cmd : Metacmd
shell_cmd = 19

abbrev out_cmd : Metacmd
out_cmd = 20

abbrev include_cmd : Metacmd
include_cmd = 21

abbrev transact_cmd : Metacmd
transact_cmd = 22

abbrev prompt_cmd : Metacmd
prompt_cmd = 23

abbrev set_var_cmd : Metacmd
set_var_cmd = 24

abbrev unset_cmd : Metacmd
unset_cmd = 25

abbrev set_format_var_cmd : Metacmd
set_format_var_cmd = 26

abbrev timing_cmd : Metacmd
timing_cmd = 27

abbrev stats_cmd : Metacmd
stats_cmd = 28

-- The name and the aliases of a command.
pub record Cmd : Type 0 where
  pub command : Metacmd
  pub name : Runes
  pub aliases : List Runes

abbrev cmd_named : Metacmd → String → List String → Cmd
cmd_named c name aliases = record { command = c; name = codes name; aliases = map codes aliases }

abbrev pub cmds : List Cmd
cmds =
    cmd_named question_cmd "?" ("?" ∷ "? " ∷ [])
    ∷ cmd_named quit_cmd "q" ("quit" ∷ [])
    ∷ cmd_named copyright_cmd "copyright" []
    ∷ cmd_named connect_cmd "c" ("c" ∷ "connect" ∷ [])
    ∷ cmd_named copy_cmd "copy" ("copy" ∷ [])
    ∷ cmd_named disconnect_cmd "Z" ("disconnect" ∷ [])
    ∷ cmd_named password_cmd "password" ("passwd" ∷ [])
    ∷ cmd_named connection_info_cmd "conninfo" []
    ∷ cmd_named drivers_cmd "drivers" []
    ∷ cmd_named describe_cmd "d[S+]" (
        "da[S+]" ∷ "df[S+]" ∷ "dm[S+]" ∷ "dv[S+]" ∷ "ds[S+]" ∷ "dn[S+]" ∷ "dt[S+]" ∷ "di[S+]"
        ∷ "dp[S]" ∷ "l[+]" ∷ [])
    ∷ cmd_named exec_cmd "g" ("gexec" ∷ "gset" ∷ "gx" ∷ "G" ∷ "crosstabview" ∷ "watch" ∷ [])
    ∷ cmd_named edit_cmd "e" ("edit" ∷ [])
    ∷ cmd_named print_cmd "p" ("print" ∷ "raw" ∷ [])
    ∷ cmd_named reset_cmd "r" ("reset" ∷ [])
    ∷ cmd_named echo_cmd "echo" ("qecho" ∷ "warn" ∷ [])
    ∷ cmd_named write_cmd "w" ("write" ∷ [])
    ∷ cmd_named change_dir_cmd "cd" []
    ∷ cmd_named set_env_cmd "setenv" []
    ∷ cmd_named shell_cmd "!" []
    ∷ cmd_named out_cmd "o" ("out" ∷ [])
    ∷ cmd_named include_cmd "i" ("ir" ∷ "include" ∷ "include_relative" ∷ [])
    ∷ cmd_named transact_cmd "begin" ("begin" ∷ "commit" ∷ "rollback" ∷ "abort" ∷ [])
    ∷ cmd_named prompt_cmd "prompt" []
    ∷ cmd_named set_var_cmd "set" []
    ∷ cmd_named unset_cmd "unset" []
    ∷ cmd_named set_format_var_cmd "pset" ("a" ∷ "C" ∷ "f" ∷ "H" ∷ "T" ∷ "t" ∷ "x" ∷ [])
    ∷ cmd_named timing_cmd "timing" []
    ∷ cmd_named stats_cmd "ss[+]" []
    ∷ []

unless_bracket : ℕ → Runes → Runes
unless_bracket c [] = if c == b']' then [] else c ∷ []
unless_bracket c (d ∷ s) = c ∷ d ∷ s

-- `strings.TrimRight(mods, "]")`
unfoldable pub trim_brackets : Runes → Runes
unfolding unless_bracket
trim_brackets [] = []
trim_brackets (c ∷ s) = unless_bracket c (trim_brackets s)

-- A name as far as its bracket, and what is in the brackets, if it has one.
unfoldable pub cut_mods : Runes → Runes × Option Runes
unfolding trim_brackets
cut_mods [] = ([], none)
cut_mods (c ∷ s) =
    let (name, mods) = cut_mods s in
    if c == b'[' then ([], some (trim_brackets s)) else (c ∷ name, mods)

each : Runes → Runes → List Runes
each name [] = []
each name (r ∷ mods) = (name ++ r ∷ []) ∷ each name mods

with_mods : Runes → Option Runes → List Runes
unfolding each
with_mods name none = name ∷ []
with_mods name (some mods) =
    ((name ++ mods) ∷ (if ltb 1 (length mods) then each name mods else [])) ++ name ∷ []

-- The names that are entered into the map for a name or an alias.
unfoldable pub entered : Runes → List Runes
unfolding cut_mods with_mods
entered s = let (name, mods) = cut_mods s in with_mods name mods

unfoldable pub entries : Metacmd → List Runes → List (Runes × Metacmd)
unfolding entered
entries c [] = []
entries c (s ∷ ss) = map (λ (n : Runes). (n, c)) (entered s) ++ entries c ss

-- What `init` enters into the map, in one of the orders in which Go iterates over the aliases.
unfoldable pub all_entries : List Cmd → List (Runes × Metacmd)
unfolding entries
all_entries [] = []
all_entries (c ∷ cs) = entries c.command (c.name ∷ c.aliases) ++ all_entries cs

-- `cmdMap[name]`: what was entered last.
unfoldable pub find_cmd : List (Runes × Metacmd) → Runes → Option Metacmd
find_cmd [] name = none
find_cmd ((n, c) ∷ es) name =
    let rest = find_cmd es name in
    elim rest [ some d ↦ some d | none ↦ if same n name then some c else none ]

-- Decode; `none` is the unknown command.
unfoldable pub decode : Runes → Option Metacmd
unfolding find_cmd all_entries
decode name = if same name [] then none else find_cmd (all_entries cmds) name
