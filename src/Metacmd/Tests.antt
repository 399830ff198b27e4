-- ===== src/Metacmd/Tests.antt =====
-- Runs of the backslash commands.
use usql.Base.{◌≡◌, refl, true, none, some, [], ◌∷◌, codes}
use usql.Failure.{other}
use usql.Metacmd.Args.{value, bad}
use usql.Metacmd.Transact.{
  Isolation, Transaction, transact_process, begin_with_params, begin_at, isolation_of,
}
use usql.Metacmd.Names.{decode, find_cmd, all_entries, entered, cut_mods, trim_brackets}
use usql.Metacmd.Describe.{Description, describe_process, describe_name, trim_modifiers}
use usql.Metacmd.Variables.{echo_process}
use usql.Metacmd.Args.{taken, get_optional, get_value, get_all_values, undashed}

decode_alias : decode (codes "dtS+") ≡ some 10
unfolding decode all_entries find_cmd entered cut_mods trim_brackets
decode_alias = refl

decode_unknown : decode (codes "nope") ≡ none
unfolding decode all_entries find_cmd entered cut_mods trim_brackets
decode_unknown = refl

begin_read_only_level :
    transact_process
      (λ s. s)
      (λ n. other 0)
      (codes "begin")
      (value (codes "-read-only") ∷ value (codes "snapshot") ∷ [])
    ≡ Transaction.begins (some (record { isolation = Isolation.level_snapshot; read_only = true }))
unfolding transact_process begin_with_params begin_at isolation_of get_optional get_value undashed
begin_read_only_level = refl

begin_bad_parameter :
    transact_process (λ s. s) (λ n. other 0) (codes "begin") (bad (other 1) ∷ [])
    ≡ Transaction.begins none
unfolding transact_process begin_with_params begin_at get_optional
begin_bad_parameter = refl

describe_verbose :
    describe_process (codes "dvS+") (value (codes "x") ∷ [])
    ≡ Description.list_tables (codes "dv") (codes "x") true true
unfolding describe_process describe_name trim_modifiers get_value
describe_verbose = refl

echo_dash : echo_process (value (codes "-x") ∷ value (codes "y") ∷ []) ≡ taken (codes "-x y\n") []
unfolding echo_process get_optional get_all_values undashed
echo_dash = refl
