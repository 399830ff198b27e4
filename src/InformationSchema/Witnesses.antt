-- ===== src/InformationSchema/Witnesses.antt =====
-- The theorems about the readers of information_schema, applied at concrete inputs.
use usql.Base.{◌+◌, ◌≡◌, refl, false, none, List, [], ◌∷◌, map, length, Runes, codes}
use usql.InformationSchema.Conditions.{Formats, no_formats, conditions}
use usql.InformationSchema.Conditions.Numbered.{texts, all_values, asked_for, conditions_lem}
use usql.InformationSchema.Defaults.{new_settings}
use usql.InformationSchema.Rows.{Answer, Scanned, Listed}
use usql.InformationSchema.Statements.{
  columns_statement, tables_statement, schemas_statement, functions_statement,
  function_columns_statement, indexes_statement, index_columns_statement,
}
use usql.InformationSchema.Statements.Constraints.{
  constraints_statement, constraint_columns_statement, sequences_statement, privileges_statement,
}
use usql.InformationSchema.Statements.Agreed.{Agree, statements_shaped}
use usql.InformationSchema.Statements.Shaped.{HasShapeOf}
use usql.InformationSchema.Summaries.{PrivilegeRow, gather_answer, other_object}
use usql.InformationSchema.Summaries.Grouped.{groups, summary_of, gather_answer_lem}
use usql.Metadata.Filter.{Filter, no_filter}

abbrev a_filter : Filter
a_filter = record no_filter {
  schema = codes "public";
  name = codes "users";
  types = codes "TABLE" ∷ [];
}

abbrev hostile : Filter
hostile = record no_filter {
  schema = codes "x";
  name = codes "'; DROP TABLE users; --";
  types = codes "VIEW" ∷ [];
}

abbrev some_formats : Formats
some_formats = record no_formats {
  schema = codes "s LIKE %s";
  name = codes "n LIKE %s";
  types = codes "t IN (%s)";
}

conditions_lem_example : conditions new_settings 1 a_filter some_formats ≡ record {
  base_param = 1 + length (all_values (asked_for new_settings a_filter some_formats));
  conds = texts new_settings.pf 1 (asked_for new_settings a_filter some_formats);
  vals = all_values (asked_for new_settings a_filter some_formats);
}
conditions_lem_example = conditions_lem new_settings 1 a_filter some_formats

hostile_shape : HasShapeOf new_settings a_filter hostile
unfolding new_settings
hostile_shape = record {
  catalog = refl;
  schema = refl;
  parent = refl;
  reference = refl;
  name = refl;
  types = refl;
  sequences = refl;
  with_system = refl;
  only_visible = refl;
  system = refl;
}

statements_shaped_example :
    Agree (columns_statement new_settings a_filter) (columns_statement new_settings hostile)
    × Agree (tables_statement new_settings a_filter) (tables_statement new_settings hostile)
    × Agree (schemas_statement new_settings a_filter) (schemas_statement new_settings hostile)
    × Agree (functions_statement new_settings a_filter) (functions_statement new_settings hostile)
    × Agree
        (function_columns_statement new_settings a_filter)
        (function_columns_statement new_settings hostile)
    × Agree (indexes_statement new_settings a_filter) (indexes_statement new_settings hostile)
    × Agree
        (index_columns_statement new_settings a_filter)
        (index_columns_statement new_settings hostile)
    × Agree
        (constraints_statement new_settings a_filter)
        (constraints_statement new_settings hostile)
    × Agree
        (constraint_columns_statement new_settings a_filter)
        (constraint_columns_statement new_settings hostile)
    × Agree (sequences_statement new_settings a_filter) (sequences_statement new_settings hostile)
    × Agree (privileges_statement new_settings a_filter) (privileges_statement new_settings hostile)
statements_shaped_example = statements_shaped new_settings a_filter hostile hostile_shape

abbrev privilege_row : Runes → Runes → Runes → PrivilegeRow
privilege_row name column type = record {
  row_catalog = [];
  row_schema = codes "public";
  row_name = name;
  row_type = codes "TABLE";
  row_column = column;
  privilege = record {
    grantee = codes "bob";
    grantor = codes "root";
    privilege_type = type;
    is_grantable = false;
  };
}

abbrev first_row : PrivilegeRow
first_row = privilege_row (codes "a") [] (codes "SELECT")

abbrev more_rows : List PrivilegeRow
more_rows =
    privilege_row (codes "a") (codes "id") (codes "UPDATE") ∷ privilege_row (codes "b") [] [] ∷ []

gather_answer_lem_example :
    gather_answer (Answer.rows (map Scanned.good (first_row ∷ more_rows)) none)
    ≡ Listed.listed (map summary_of (groups first_row more_rows))
gather_answer_lem_example = gather_answer_lem first_row more_rows (unfold other_object in refl)
