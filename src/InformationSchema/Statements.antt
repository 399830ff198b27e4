-- ===== src/InformationSchema/Statements.antt =====
-- drivers/metadata/informationschema/metadata.go: the statements that read columns, tables, schemas, functions and indexes.
pub mod Constraints
pub mod Shaped
pub mod Agreed
use usql.Base.{
  ℕ, ◌+◌, Bool, true, false, ◌&&◌, List, [], ◌∷◌, ◌++◌, if◌then◌else◌, Runes, codes, length, among,
}
use usql.InformationSchema.Conditions.{
  ClauseName, Settings, Formats, no_formats, Built, has_any, conditions, query_text,
}
use usql.Metadata.Filter.{Filter}
use usql.Metadata.Privileges.{join}

-- A statement and the values of its parameters.
pub record Statement : Type 0 where
  pub text : Runes
  pub vals : List Runes

-- `if len(conds) != 0 { qstr += " WHERE " + strings.Join(conds, " AND ") }`
abbrev pub with_where : Runes → List Runes → Runes
with_where q conds =
    if has_any conds then q ++ (codes " WHERE " ++ join (codes " AND ") conds) else q

abbrev pub select : List Runes → Runes
select columns = codes "SELECT\n  " ++ join (codes ",\n  ") columns

module _ (s : Settings) where
  abbrev pub columns_formats : Formats
  columns_formats = record no_formats {
    catalog = codes "table_catalog LIKE %s";
    schema = codes "table_schema LIKE %s";
    not_schemas = codes "table_schema NOT IN (%s)";
    parent = codes "table_name LIKE %s";
  }

  unfoldable pub columns_statement : Filter → Statement
  unfolding conditions query_text
  columns_statement f =
      let b = conditions s 1 f columns_formats in
      record {
        text =
            query_text s
              (select (
                  codes "table_catalog"
                  ∷ codes "table_schema"
                  ∷ codes "table_name"
                  ∷ codes "column_name"
                  ∷ codes "ordinal_position"
                  ∷ s.clauses ClauseName.columns_data_type
                  ∷ codes "COALESCE(column_default, '')"
                  ∷ codes "COALESCE(is_nullable, '') AS is_nullable"
                  ∷ s.clauses ClauseName.columns_column_size
                  ∷ s.clauses ClauseName.columns_numeric_scale
                  ∷ s.clauses ClauseName.columns_numeric_prec_radix
                  ∷ s.clauses ClauseName.columns_char_octet_length
                  ∷ [])
                ++ codes " FROM information_schema.columns\n")
              b.conds (codes "table_catalog, table_schema, table_name, ordinal_position");
        vals = b.vals;
      }

  abbrev pub tables_formats : Formats
  tables_formats = record no_formats {
    catalog = codes "table_catalog LIKE %s";
    schema = codes "table_schema LIKE %s";
    not_schemas = codes "table_schema NOT IN (%s)";
    name = codes "table_name LIKE %s";
    types = codes "table_type IN (%s)";
  }

  abbrev pub table_sequences_formats : Formats
  table_sequences_formats = record no_formats {
    catalog = codes "sequence_catalog LIKE %s";
    schema = codes "sequence_schema LIKE %s";
    not_schemas = codes "sequence_schema NOT IN (%s)";
    name = codes "sequence_name LIKE %s";
  }

  -- The tables, and the sequences if the types have them and the database does; the parameters are numbered through.
  unfoldable pub tables_statement : Filter → Statement
  unfolding conditions query_text
  tables_statement f =
      let b = conditions s 1 f tables_formats in
      let q =
        with_where
          (codes
            "SELECT\n  table_catalog,\n  table_schema,\n  table_name,\n  table_type\nFROM information_schema.tables\n")
          b.conds in
      let more = conditions s (length b.vals + 1) f table_sequences_formats in
      let sequences =
        with_where
          (q
            ++ codes
                "\nUNION ALL\nSELECT\n  sequence_catalog AS table_catalog,\n  sequence_schema AS table_schema,\n  sequence_name AS table_name,\n  'SEQUENCE' AS table_type\nFROM information_schema.sequences\n")
          more.conds in
      if among (codes "SEQUENCE") f.types && s.has_sequences
      then record {
        text =
            query_text s sequences [] (codes "table_catalog, table_schema, table_type, table_name");
        vals = b.vals ++ more.vals;
      }
      else record {
        text = query_text s q [] (codes "table_catalog, table_schema, table_type, table_name");
        vals = b.vals;
      }

  abbrev pub schemas_formats : Formats
  schemas_formats = record no_formats {
    catalog = codes "catalog_name LIKE %s";
    name = codes "schema_name LIKE %s";
    not_schemas = codes "schema_name NOT IN (%s)";
  }

  unfoldable pub schemas_statement : Filter → Statement
  unfolding conditions query_text
  schemas_statement f =
      let b = conditions s 1 f schemas_formats in
      record {
        text =
            query_text s
              (codes "SELECT\n  schema_name,\n  catalog_name\nFROM information_schema.schemata\n")
              b.conds (codes "catalog_name, schema_name");
        vals = b.vals;
      }

  abbrev pub functions_formats : Formats
  functions_formats = record no_formats {
    catalog = codes "routine_catalog LIKE %s";
    schema = codes "routine_schema LIKE %s";
    not_schemas = codes "routine_schema NOT IN (%s)";
    name = codes "routine_name LIKE %s";
    types = codes "routine_type IN (%s)";
  }

  unfoldable pub functions_statement : Filter → Statement
  unfolding conditions query_text
  functions_statement f =
      let b = conditions s 1 f functions_formats in
      record {
        text =
            query_text s
              (select (
                  codes "specific_name"
                  ∷ codes "routine_catalog"
                  ∷ codes "routine_schema"
                  ∷ codes "routine_name"
                  ∷ codes "COALESCE(routine_type, '')"
                  ∷ codes "COALESCE(data_type, '')"
                  ∷ codes "routine_definition"
                  ∷ codes "COALESCE(external_language, routine_body) AS language"
                  ∷ codes "is_deterministic"
                  ∷ s.clauses ClauseName.functions_security_type
                  ∷ [])
                ++ codes " FROM information_schema.routines\n")
              b.conds
              (codes "routine_catalog, routine_schema, routine_name, COALESCE(routine_type, '')");
        vals = b.vals;
      }

  abbrev pub function_columns_formats : Formats
  function_columns_formats = record no_formats {
    catalog = codes "specific_catalog LIKE %s";
    schema = codes "specific_schema LIKE %s";
    not_schemas = codes "specific_schema NOT IN (%s)";
    parent = codes "specific_name LIKE %s";
  }

  unfoldable pub function_columns_statement : Filter → Statement
  unfolding conditions query_text
  function_columns_statement f =
      let b = conditions s 1 f function_columns_formats in
      record {
        text =
            query_text s
              (select (
                  codes "specific_catalog"
                  ∷ codes "specific_schema"
                  ∷ codes "specific_name"
                  ∷ codes "COALESCE(parameter_name, '')"
                  ∷ codes "ordinal_position"
                  ∷ codes "COALESCE(parameter_mode, '')"
                  ∷ codes "COALESCE(data_type, '')"
                  ∷ s.clauses ClauseName.function_columns_column_size
                  ∷ s.clauses ClauseName.function_columns_numeric_scale
                  ∷ s.clauses ClauseName.function_columns_numeric_prec_radix
                  ∷ s.clauses ClauseName.function_columns_char_octet_length
                  ∷ [])
                ++ codes " FROM information_schema.parameters\n")
              b.conds
              (codes
                "specific_catalog, specific_schema, specific_name, ordinal_position, COALESCE(parameter_name, '')");
        vals = b.vals;
      }

  abbrev pub indexes_formats : Formats
  indexes_formats = record no_formats {
    catalog = codes "table_catalog LIKE %s";
    schema = codes "index_schema LIKE %s";
    not_schemas = codes "index_schema NOT IN (%s)";
    parent = codes "table_name LIKE %s";
    name = codes "index_name LIKE %s";
  }

  unfoldable pub indexes_statement : Filter → Statement
  unfolding conditions query_text
  indexes_statement f =
      let b = conditions s 1 f indexes_formats in
      let q =
        with_where
          (codes
            "SELECT\n  table_catalog,\n  index_schema,\n  table_name,\n  index_name,\n  CASE WHEN non_unique = 0 THEN 'YES' ELSE 'NO' END AS is_unique,\n  CASE WHEN index_name = 'PRIMARY' THEN 'YES' ELSE 'NO' END AS is_primary,\n  index_type\nFROM information_schema.statistics\n")
          b.conds
        ++ codes
            "\nGROUP BY table_catalog, index_schema, table_name, index_name,\n  CASE WHEN non_unique = 0 THEN 'YES' ELSE 'NO' END,\n  CASE WHEN index_name = 'PRIMARY' THEN 'YES' ELSE 'NO' END,\n  index_type" in
      record {
        text = query_text s q [] (codes "table_catalog, index_schema, table_name, index_name");
        vals = b.vals;
      }

  abbrev pub index_columns_formats : Formats
  index_columns_formats = record no_formats {
    catalog = codes "i.table_catalog LIKE %s";
    schema = codes "index_schema LIKE %s";
    not_schemas = codes "index_schema NOT IN (%s)";
    parent = codes "i.table_name LIKE %s";
    name = codes "index_name LIKE %s";
  }

  unfoldable pub index_columns_statement : Filter → Statement
  unfolding conditions query_text
  index_columns_statement f =
      let b = conditions s 1 f index_columns_formats in
      record {
        text =
            query_text s
              (codes
                "SELECT\n  i.table_catalog,\n  i.table_schema,\n  i.table_name,\n  i.index_name,\n  i.column_name,\n  c.data_type,\n  i.seq_in_index\n\nFROM information_schema.statistics i\nJOIN information_schema.columns c ON\n  i.table_catalog = c.table_catalog AND\n  i.table_schema = c.table_schema AND\n  i.table_name = c.table_name AND\n  i.column_name = c.column_name\n")
              b.conds (codes "i.table_catalog, index_schema, table_name, index_name, seq_in_index");
        vals = b.vals;
      }
