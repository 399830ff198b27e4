-- ===== src/Metacmd/Describe.antt =====
-- metacmd/cmds.go: the process of \d and its kin, which picks a call of the metadata writer.
use usql.Base.{ℕ, Bool, false, ◌||◌, List, [], ◌∷◌, ◌==◌, if◌then◌else◌, Runes, codes, same}
use usql.Failure.{Error}
use usql.Metacmd.Args.{Args, Taken, get_value}

-- A call of the writer, with the pattern, whether it is verbose, and whether system objects are shown.
pub data Description : Type 0 where
  describe_table_details list_schemas list_indexes : Runes → Bool → Bool → Description
  -- with the types of the tables
  list_tables : Runes → Runes → Bool → Bool → Description
  -- with the types of the functions
  describe_functions : Runes → Runes → Bool → Bool → Description
  list_all_dbs : Runes → Bool → Description
  list_privilege_summaries : Runes → Bool → Description
  describes_nothing : Description
  description_fails : Error → Description

has_modifier : ℕ → Runes → Bool
has_modifier c [] = false
has_modifier c (d ∷ s) = c == d || has_modifier c s

unless_modifier : ℕ → Runes → Runes
unless_modifier c [] = if c == b'S' || c == b'+' then [] else c ∷ []
unless_modifier c (d ∷ s) = c ∷ d ∷ s

-- `strings.TrimRight(p.Name, "S+")`
unfoldable pub trim_modifiers : Runes → Runes
unfolding unless_modifier
trim_modifiers [] = []
trim_modifiers (c ∷ s) = unless_modifier c (trim_modifiers s)

abbrev table_names : List Runes
table_names =
    codes "dt" ∷ codes "dtv" ∷ codes "dtm" ∷ codes "dts" ∷ codes "dv" ∷ codes "dm" ∷ codes "ds" ∷ []

is_one_of : Runes → List Runes → Bool
is_one_of s [] = false
is_one_of s (t ∷ ts) = same s t || is_one_of s ts

-- The switch on the name without its modifiers.
unfoldable pub describe_name : Runes → Runes → Bool → Bool → Description
unfolding is_one_of
describe_name name pattern verbose show_system =
    if same name (codes "d")
    then (if same pattern []
        then Description.list_tables (codes "tvmsE") pattern verbose show_system
        else Description.describe_table_details pattern verbose show_system)
    else if same name (codes "df") || same name (codes "da")
    then Description.describe_functions name pattern verbose show_system
    else if is_one_of name table_names
    then Description.list_tables name pattern verbose show_system
    else if same name (codes "dn")
    then Description.list_schemas pattern verbose show_system
    else if same name (codes "di")
    then Description.list_indexes pattern verbose show_system
    else if same name (codes "l")
    then Description.list_all_dbs pattern verbose
    else if same name (codes "dp")
    then Description.list_privilege_summaries pattern show_system
    else Description.describes_nothing

describe_with : Runes → Taken Runes → Description
unfolding describe_name has_modifier trim_modifiers
describe_with name (Taken.untaken e) = Description.description_fails e
describe_with name (Taken.taken pattern args) =
    describe_name (trim_modifiers name) pattern (has_modifier b'+' name) (has_modifier b'S' name)

-- The writer is there.
unfoldable pub describe_process : Runes → Args → Description
unfolding describe_with
describe_process name args = describe_with name (get_value args)
