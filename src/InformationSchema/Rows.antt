-- ===== src/InformationSchema/Rows.antt =====
-- drivers/metadata/informationschema/metadata.go: what the readers do with the rows of their statements, and the query of
-- drivers/metadata/reader.go.
use usql.Base.{Bool, Option, none, some, List, [], ◌∷◌, ◌++◌, if◌then◌else◌}
use usql.Failure.{Error, not_supported}
use usql.InformationSchema.Conditions.{Settings}
use usql.InformationSchema.Statements.{
  Statement, columns_statement, tables_statement, schemas_statement, functions_statement,
  function_columns_statement, indexes_statement, index_columns_statement,
}
use usql.InformationSchema.Statements.Constraints.{
  constraints_statement, constraint_columns_statement, sequences_statement,
}
use usql.Metadata.Filter.{Filter}

-- A row, as `Scan` reads it, or its error.
pub data Scanned (A : Type 0) : Type 0 where
  good : A → Scanned A
  bad : Error → Scanned A

-- What a query gives: `sql.ErrNoRows`, another error, or rows and what `rows.Err` says behind them.
pub data Answer (A : Type 0) : Type 0 where
  no_rows : Answer A
  failed : Error → Answer A
  rows : List (Scanned A) → Option Error → Answer A

pub data Listed (A : Type 0) : Type 0 where
  listed : List A → Listed A
  refused : Error → Listed A

-- `LoggingReader.Query`, except_schema its log and its timeout.
unfoldable pub run_query : {A : Type 0} → Bool → (Statement → Answer A) → Statement → Answer A
run_query dry_run db q = if dry_run then Answer.no_rows else db q

-- The loop over the rows. `format` is what the reader makes of a row.
unfoldable pub scan_rows :
    {A : Type 0} → (A → A) → List A → List (Scanned A) → Option Error → Listed A
scan_rows format results [] none = Listed.listed results
scan_rows format results [] (some e) = Listed.refused e
scan_rows format results (Scanned.bad e ∷ rs) err = Listed.refused e
scan_rows format results (Scanned.good a ∷ rs) err =
    scan_rows format (results ++ format a ∷ []) rs err

unfoldable pub read_answer : {A : Type 0} → (A → A) → Answer A → Listed A
unfolding scan_rows
read_answer format Answer.no_rows = Listed.listed []
read_answer format (Answer.failed e) = Listed.refused e
read_answer format (Answer.rows rs err) = scan_rows format [] rs err

-- The readers, of the rows of one table each.
module _ {A : Type 0} (s : Settings) (dry_run : Bool) (db : Statement → Answer A) where
  read_as : (A → A) → Statement → Listed A
  unfolding run_query read_answer
  read_as format q = read_answer format (run_query dry_run db q)

  read_if : Bool → Statement → Listed A
  unfolding read_as
  read_if has q = if has then read_as (λ a. a) q else Listed.refused not_supported

  -- `format` sets the type of a column by the data type formatter.
  unfoldable pub read_columns : (A → A) → Filter → Listed A
  unfolding read_as columns_statement
  read_columns format f = read_as format (columns_statement s f)

  unfoldable pub read_tables : Filter → Listed A
  unfolding read_as tables_statement
  read_tables f = read_as (λ a. a) (tables_statement s f)

  unfoldable pub read_schemas : Filter → Listed A
  unfolding read_as schemas_statement
  read_schemas f = read_as (λ a. a) (schemas_statement s f)

  unfoldable pub read_functions : Filter → Listed A
  unfolding read_if functions_statement
  read_functions f = read_if s.has_functions (functions_statement s f)

  unfoldable pub read_function_columns : Filter → Listed A
  unfolding read_if function_columns_statement
  read_function_columns f = read_if s.has_functions (function_columns_statement s f)

  unfoldable pub read_indexes : Filter → Listed A
  unfolding read_if indexes_statement
  read_indexes f = read_if s.has_indexes (indexes_statement s f)

  unfoldable pub read_index_columns : Filter → Listed A
  unfolding read_if index_columns_statement
  read_index_columns f = read_if s.has_indexes (index_columns_statement s f)

  unfoldable pub read_constraints : Filter → Listed A
  unfolding read_if constraints_statement
  read_constraints f = read_if s.has_constraints (constraints_statement s f)

  unfoldable pub read_constraint_columns : Filter → Listed A
  unfolding read_if constraint_columns_statement
  read_constraint_columns f = read_if s.has_constraints (constraint_columns_statement s f)

  unfoldable pub read_sequences : Filter → Listed A
  unfolding read_if sequences_statement
  read_sequences f = read_if s.has_sequences (sequences_statement s f)
