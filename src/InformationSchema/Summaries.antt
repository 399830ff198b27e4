-- ===== src/InformationSchema/Summaries.antt =====
-- drivers/metadata/informationschema/metadata.go: PrivilegeSummaries, which gathers the privileges of each table.
pub mod Grouped
use usql.Base.{
  Bool, true, false, not, ◌&&◌, ◌||◌, Option, none, some, List, [], ◌∷◌, ◌++◌, if◌then◌else◌, Runes,
  same,
}
use usql.Failure.{Error, not_supported}
use usql.InformationSchema.Conditions.{Settings}
use usql.InformationSchema.Rows.{Answer, Scanned, Listed, run_query}
use usql.InformationSchema.Statements.{Statement}
use usql.InformationSchema.Statements.Constraints.{privileges_statement}
use usql.Metadata.Filter.{Filter}
use usql.Metadata.Privileges.{ObjectPrivilege, ColumnPrivilege}

-- PrivilegeSummary
pub record Summary : Type 0 where
  pub catalog : Runes
  pub schema : Runes
  pub name : Runes
  pub object_type : Runes
  pub object_privileges : List ObjectPrivilege
  pub column_privileges : List ColumnPrivilege

-- `row`: the object, the column, or the empty text, and the privilege.
pub record PrivilegeRow : Type 0 where
  pub row_catalog : Runes
  pub row_schema : Runes
  pub row_name : Runes
  pub row_type : Runes
  pub row_column : Runes
  pub privilege : ObjectPrivilege

-- `results`, and `curSummary`, the last of them. Before there is one it points to a summary of its own, which
-- is never listed.
pub record Gathered : Type 0 where
  pub results : List Summary
  pub current : Summary
  pub is_listed : Bool

abbrev pub no_summary : Summary
no_summary = record {
  catalog = [];
  schema = [];
  name = [];
  object_type = [];
  object_privileges = [];
  column_privileges = [];
}

unfoldable pub other_object : Summary → PrivilegeRow → Bool
other_object s r =
    not (same s.catalog r.row_catalog)
    || not (same s.schema r.row_schema)
    || not (same s.name r.row_name)

-- The switch on a row.
unfoldable pub with_privilege : PrivilegeRow → Summary → Summary
with_privilege r s =
    if same r.privilege.privilege_type []
    then s
    else if same r.row_column []
    then record s { object_privileges = s.object_privileges ++ r.privilege ∷ [] }
    else record s {
      column_privileges =
          s.column_privileges ++ record { column = r.row_column; object = r.privilege } ∷ [];
    }

abbrev pub summary_for : PrivilegeRow → Summary
summary_for r = record no_summary {
  catalog = r.row_catalog;
  schema = r.row_schema;
  name = r.row_name;
  object_type = r.row_type;
}

-- `results` with the current summary in its place.
abbrev pub finished : Gathered → List Summary
finished g = if g.is_listed then g.results ++ g.current ∷ [] else g.results

unfoldable pub gather_row : PrivilegeRow → Gathered → Gathered
unfolding with_privilege other_object
gather_row r g =
    if other_object g.current r
    then record {
      results = finished g;
      current = with_privilege r (summary_for r);
      is_listed = true;
    }
    else record g { current = with_privilege r g.current }

unfoldable pub gather_rows : Gathered → List (Scanned PrivilegeRow) → Option Error → Listed Summary
unfolding gather_row
gather_rows g [] none = Listed.listed (finished g)
gather_rows g [] (some e) = Listed.refused e
gather_rows g (Scanned.bad e ∷ rs) err = Listed.refused e
gather_rows g (Scanned.good r ∷ rs) err = gather_rows (gather_row r g) rs err

unfoldable pub gather_answer : Answer PrivilegeRow → Listed Summary
unfolding gather_rows
gather_answer Answer.no_rows = Listed.listed []
gather_answer (Answer.failed e) = Listed.refused e
gather_answer (Answer.rows rs err) =
    gather_rows (record { results = []; current = no_summary; is_listed = false }) rs err

unfoldable pub privilege_summaries :
    Settings → Bool → (Statement → Answer PrivilegeRow) → Filter → Listed Summary
unfolding gather_answer run_query privileges_statement
privilege_summaries s dry_run db f =
    if not s.has_table_privileges && not s.has_column_privileges && not s.has_usage_privileges
    then Listed.refused not_supported
    else gather_answer (run_query dry_run db (privileges_statement s f))
