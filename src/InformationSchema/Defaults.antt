-- ===== src/InformationSchema/Defaults.antt =====
-- drivers/metadata/informationschema/metadata.go: `New`, with the settings that it starts from, and its options.
use usql.Base.{ℕ, Bool, true, List, [], ◌∷◌, Option, none, some, Runes, codes}
use usql.Env.Parse.{ℤ, format_int}
use usql.InformationSchema.Conditions.{ClauseName, Settings}

-- The clauses that New sets; the others are missing in the map, and read as empty.
unfoldable pub default_clauses : ClauseName → Runes
default_clauses ClauseName.columns_data_type = codes "data_type"
default_clauses ClauseName.columns_column_size =
    codes "COALESCE(character_maximum_length, numeric_precision, datetime_precision, 0)"
default_clauses ClauseName.columns_numeric_scale = codes "COALESCE(numeric_scale, 0)"
default_clauses ClauseName.columns_numeric_prec_radix =
    codes "COALESCE(numeric_precision_radix, 10)"
default_clauses ClauseName.columns_char_octet_length = codes "COALESCE(character_octet_length, 0)"
default_clauses ClauseName.function_columns_column_size =
    codes "COALESCE(character_maximum_length, numeric_precision, datetime_precision, 0)"
default_clauses ClauseName.function_columns_numeric_scale = codes "COALESCE(numeric_scale, 0)"
default_clauses ClauseName.function_columns_numeric_prec_radix =
    codes "COALESCE(numeric_precision_radix, 10)"
default_clauses ClauseName.function_columns_char_octet_length =
    codes "COALESCE(character_octet_length, 0)"
default_clauses ClauseName.functions_security_type = codes "security_type"
default_clauses ClauseName.constraint_is_deferrable = codes "t.is_deferrable"
default_clauses ClauseName.constraint_initially_deferred = codes "t.initially_deferred"
default_clauses ClauseName.sequence_columns_increment = codes "increment"
default_clauses ClauseName.privileges_grantor = codes "grantor"
default_clauses ClauseName.constraint_join_cond = []

-- `fmt.Sprintf("$%d", n)`
unfoldable pub dollar_placeholder : ℕ → Runes
unfolding format_int
dollar_placeholder n = b'$' ∷ format_int (ℤ.pos n)

unfoldable pub new_settings : Settings
unfolding default_clauses dollar_placeholder
new_settings = record {
  pf = dollar_placeholder;
  has_functions = true;
  has_sequences = true;
  has_indexes = true;
  has_constraints = true;
  has_check_constraints = true;
  has_table_privileges = true;
  has_column_privileges = true;
  has_usage_privileges = true;
  clauses = default_clauses;
  limit = ℤ.pos 0;
  system_schemas = codes "information_schema" ∷ [];
  current_schema = [];
}

custom : (ClauseName → Option Runes) → (ClauseName → Runes) → ClauseName → Runes
custom cols clauses name = elim (cols name) [ none ↦ clauses name | some clause ↦ clause ]

with_placeholder : (ℕ → Runes) → Settings → Settings
with_placeholder pf s = record s { pf = pf }

with_custom_clauses : (ClauseName → Option Runes) → Settings → Settings
unfolding custom
with_custom_clauses cols s = record s { clauses = custom cols s.clauses }

with_functions : Bool → Settings → Settings
with_functions has s = record s { has_functions = has }

with_indexes : Bool → Settings → Settings
with_indexes has s = record s { has_indexes = has }

with_constraints : Bool → Settings → Settings
with_constraints has s = record s { has_constraints = has }

with_check_constraints : Bool → Settings → Settings
with_check_constraints has s = record s { has_check_constraints = has }

with_sequences : Bool → Settings → Settings
with_sequences has s = record s { has_sequences = has }

with_table_privileges : Bool → Settings → Settings
with_table_privileges has s = record s { has_table_privileges = has }

with_column_privileges : Bool → Settings → Settings
with_column_privileges has s = record s { has_column_privileges = has }

with_usage_privileges : Bool → Settings → Settings
with_usage_privileges has s = record s { has_usage_privileges = has }

with_system_schemas : List Runes → Settings → Settings
with_system_schemas schemas s = record s { system_schemas = schemas }

with_current_schema : Runes → Settings → Settings
with_current_schema expr s = record s { current_schema = expr }

unfoldable pub set_limit : ℤ → Settings → Settings
set_limit l s = record s { limit = l }
