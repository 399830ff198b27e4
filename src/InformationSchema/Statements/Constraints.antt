-- ===== src/InformationSchema/Statements/Constraints.antt =====
-- drivers/metadata/informationschema/metadata.go: the statements that read constraints, sequences and privileges.
use usql.Base.{◌+◌, Bool, List, [], ◌∷◌, ◌++◌, if◌then◌else◌, Runes, codes, length}
use usql.InformationSchema.Conditions.{
  ClauseName, Settings, Formats, no_formats, has_any, conditions, query_text,
}
use usql.Metadata.Filter.{Filter}
use usql.Metadata.Privileges.{join}
use usql.InformationSchema.Statements.{Statement, with_where, select}

module _ (s : Settings) where
  abbrev pub constraints_formats : Formats
  constraints_formats = record no_formats {
    catalog = codes "t.constraint_catalog LIKE %s";
    schema = codes "t.table_schema LIKE %s";
    not_schemas = codes "t.table_schema NOT IN (%s)";
    parent = codes "t.table_name LIKE %s";
    reference = codes "f.table_name LIKE %s";
    name = codes "t.constraint_name LIKE %s";
  }

  unfoldable pub constraints_statement : Filter → Statement
  unfolding conditions query_text
  constraints_statement f =
      let b = conditions s 1 f constraints_formats in
      let q =
        select (
          codes "t.constraint_catalog"
          ∷ codes "t.table_schema"
          ∷ codes "t.table_name"
          ∷ codes "t.constraint_name"
          ∷ codes "t.constraint_type"
          ∷ s.clauses ClauseName.constraint_is_deferrable
          ∷ s.clauses ClauseName.constraint_initially_deferred
          ∷ codes "COALESCE(r.unique_constraint_catalog, '') AS foreign_catalog"
          ∷ codes "COALESCE(r.unique_constraint_schema, '') AS foreign_schema"
          ∷ codes "COALESCE(f.table_name, '') AS foreign_table"
          ∷ codes "COALESCE(r.unique_constraint_name, '') AS foreign_constraint"
          ∷ codes "COALESCE(r.match_option, '') AS match_options"
          ∷ codes "COALESCE(r.update_rule, '') AS update_rule"
          ∷ codes "COALESCE(r.delete_rule, '') AS delete_rule"
          ∷ codes "COALESCE(c.check_clause, '') AS check_clause"
          ∷ [])
        ++ (codes
              "\nFROM information_schema.table_constraints t\nLEFT JOIN information_schema.referential_constraints r ON t.constraint_catalog = r.constraint_catalog\n  AND t.constraint_schema = r.constraint_schema\n  AND t.constraint_name = r.constraint_name\n  AND t.constraint_type = 'FOREIGN KEY'\nLEFT JOIN information_schema.table_constraints f ON r.unique_constraint_catalog = f.constraint_catalog\n  AND r.unique_constraint_schema = f.constraint_schema\n  AND r.unique_constraint_name = f.constraint_name\n  "
            ++ (s.clauses ClauseName.constraint_join_cond
                ++ codes
                    "\nLEFT JOIN information_schema.check_constraints c ON t.constraint_catalog = c.constraint_catalog\n  AND t.constraint_schema = c.constraint_schema\n  AND t.constraint_name = c.constraint_name\n")) in
      record {
        text =
            query_text s (with_where q b.conds) []
              (codes "t.constraint_catalog, t.table_schema, t.table_name, t.constraint_name");
        vals = b.vals;
      }

  abbrev pub check_columns_formats : Formats
  check_columns_formats = record no_formats {
    catalog = codes "c.constraint_catalog LIKE %s";
    schema = codes "c.table_schema LIKE %s";
    not_schemas = codes "c.table_schema NOT IN (%s)";
    parent = codes "c.table_name LIKE %s";
    name = codes "c.constraint_name LIKE %s";
  }

  abbrev pub key_columns_formats : Formats
  key_columns_formats = record no_formats {
    catalog = codes "c.constraint_catalog LIKE %s";
    schema = codes "c.table_schema LIKE %s";
    not_schemas = codes "c.table_schema NOT IN (%s)";
    parent = codes "c.table_name LIKE %s";
    reference = codes "f.table_name LIKE %s";
    name = codes "c.constraint_name LIKE %s";
  }

  -- The columns of check constraints.
  unfoldable pub check_columns : Filter → Statement
  unfolding conditions
  check_columns f =
      let b = conditions s 1 f check_columns_formats in
      if s.has_check_constraints
      then record {
        text =
            with_where
              (codes
                "SELECT\n\t  c.constraint_catalog,\n\t  c.table_schema,\n\t  c.table_name,\n\t  c.constraint_name,\n\t  c.column_name,\n\t  1 AS ordinal_position,\n\t  '' AS foreign_catalog,\n\t  '' AS foreign_schema,\n\t  '' AS foreign_table,\n\t  '' AS foreign_name\n\tFROM information_schema.constraint_column_usage c\n\t")
              b.conds
            ++ codes "\nUNION ALL\n";
        vals = if has_any b.conds then b.vals else [];
      }
      else record { text = []; vals = [] }

  unfoldable pub constraint_columns_statement : Filter → Statement
  unfolding conditions query_text check_columns
  constraint_columns_statement f =
      let c = check_columns f in
      let b = conditions s (length c.vals + 1) f key_columns_formats in
      let q =
        c.text
        ++ (codes
              "SELECT\n  c.constraint_catalog,\n  c.table_schema,\n  c.table_name,\n  c.constraint_name,\n  c.column_name,\n  c.ordinal_position,\n  COALESCE(f.constraint_catalog, '') AS foreign_catalog,\n  COALESCE(f.table_schema, '') AS foreign_schema,\n  COALESCE(f.table_name, '') AS foreign_table,\n  COALESCE(f.column_name, '') AS foreign_name\nFROM information_schema.key_column_usage c\nLEFT JOIN information_schema.referential_constraints r ON c.constraint_catalog = r.constraint_catalog\n  AND c.constraint_schema = r.constraint_schema\n  AND c.constraint_name = r.constraint_name\nLEFT JOIN information_schema.key_column_usage f ON r.unique_constraint_catalog = f.constraint_catalog\n  AND r.unique_constraint_schema = f.constraint_schema\n  AND r.unique_constraint_name = f.constraint_name\n  "
            ++ (s.clauses ClauseName.constraint_join_cond
                ++ codes "\n  AND c.position_in_unique_constraint = f.ordinal_position\n")) in
      record {
        text = query_text s (with_where q b.conds) [] (
            codes
              "constraint_catalog, table_schema, table_name, constraint_name, ordinal_position, column_name");
        vals = if has_any b.conds then c.vals ++ b.vals else c.vals;
      }

  abbrev pub sequences_formats : Formats
  sequences_formats = record no_formats {
    catalog = codes "sequence_catalog LIKE %s";
    schema = codes "sequence_schema LIKE %s";
    not_schemas = codes "sequence_schema NOT IN (%s)";
    name = codes "sequence_name LIKE %s";
  }

  unfoldable pub sequences_statement : Filter → Statement
  unfolding conditions query_text
  sequences_statement f =
      let b = conditions s 1 f sequences_formats in
      record {
        text =
            query_text s
              (select (
                  codes "sequence_catalog"
                  ∷ codes "sequence_schema"
                  ∷ codes "sequence_name"
                  ∷ codes "data_type"
                  ∷ codes "start_value"
                  ∷ codes "minimum_value"
                  ∷ codes "maximum_value"
                  ∷ s.clauses ClauseName.sequence_columns_increment
                  ∷ codes "cycle_option"
                  ∷ [])
                ++ codes " FROM information_schema.sequences\n")
              b.conds (codes "sequence_catalog, sequence_schema, sequence_name");
        vals = b.vals;
      }

  abbrev pub privileges_formats : Formats
  privileges_formats = record no_formats {
    catalog = codes "object_catalog LIKE %s";
    schema = codes "object_schema LIKE %s";
    not_schemas = codes "object_schema NOT IN (%s)";
    name = codes "object_name LIKE %s";
    types = codes "object_type IN (%s)";
  }

  abbrev if_has : Bool → Runes → List Runes
  if_has has q = if has then q ∷ [] else []

  -- `qstrs`
  unfoldable pub privilege_queries : List Runes
  privilege_queries =
      (if_has s.has_table_privileges (
          codes "SELECT\n  "
          ++ (join (codes ", ") (
                codes "t.table_catalog AS object_catalog"
                ∷ codes "t.table_schema AS object_schema"
                ∷ codes "t.table_name AS object_name"
                ∷ codes "t.table_type AS object_type"
                ∷ codes "'' AS column_name"
                ∷ codes "COALESCE(grantee, '') AS grantee"
                ∷ (codes "COALESCE("
                    ++ (s.clauses ClauseName.privileges_grantor ++ codes ", '') AS grantor"))
                ∷ codes "COALESCE(privilege_type, '') AS privilege_type"
                ∷ codes "CASE WHEN is_grantable='YES' THEN 1 ELSE 0 END AS is_grantable"
                ∷ [])
              ++ (codes "\n"
                  ++ (codes "FROM information_schema.tables t\n"
                      ++ (codes "LEFT JOIN information_schema.table_privileges tp\n"
                          ++ codes
                              "  ON t.table_catalog = tp.table_catalog AND t.table_schema = tp.table_schema AND t.table_name = tp.table_name")))))
        ++ if_has s.has_column_privileges (
            codes "SELECT\n  "
            ++ (join (codes ", ") (
                  codes "t.table_catalog AS object_catalog"
                  ∷ codes "t.table_schema AS object_schema"
                  ∷ codes "t.table_name AS object_name"
                  ∷ codes "t.table_type AS object_type"
                  ∷ codes "column_name"
                  ∷ codes "grantee"
                  ∷ (s.clauses ClauseName.privileges_grantor ++ codes " AS grantor")
                  ∷ codes "privilege_type"
                  ∷ codes "CASE WHEN is_grantable='YES' THEN 1 ELSE 0 END AS is_grantable"
                  ∷ [])
                ++ (codes "\n"
                    ++ (codes "FROM information_schema.column_privileges cp\n"
                        ++ (codes "LEFT JOIN information_schema.tables t\n"
                            ++ codes
                                "  ON t.table_catalog = cp.table_catalog AND t.table_schema = cp.table_schema AND t.table_name = cp.table_name"))))))
      ++ if_has s.has_usage_privileges (
          codes "SELECT\n  "
          ++ (join (codes ", ") (
                codes "object_catalog"
                ∷ codes "object_schema"
                ∷ codes "object_name"
                ∷ codes "object_type"
                ∷ codes "'' AS column_name"
                ∷ codes "grantee"
                ∷ (s.clauses ClauseName.privileges_grantor ++ codes " AS grantor")
                ∷ codes "privilege_type"
                ∷ codes "CASE WHEN is_grantable='YES' THEN 1 ELSE 0 END AS is_grantable"
                ∷ [])
              ++ (codes "\n" ++ (codes "FROM information_schema.usage_privileges"))))

  unfoldable pub privileges_statement : Filter → Statement
  unfolding conditions query_text privilege_queries
  privileges_statement f =
      let b = conditions s 1 f privileges_formats in
      let q =
        codes "SELECT * FROM (\n"
        ++ (join (codes "\nUNION ALL\n") privilege_queries ++ codes "\n) AS subquery") in
      record {
        text = query_text s q b.conds (
            codes
              "object_catalog, object_schema, object_type, object_name, column_name, grantee, grantor, privilege_type");
        vals = b.vals;
      }
