-- ===== src/InformationSchema/Statements/Agreed.antt =====
-- The texts of the statements for filters of one shape.
use usql.Base.{
  ℕ, ◌+◌, ◌≡◌, refl, ap, Bool, true, false, ◌&&◌, List, [], ◌++◌, if◌then◌else◌, Runes, codes,
  among, length, length-append, arith,
}
use usql.InformationSchema.Conditions.{Settings, has_any, conditions}
use usql.InformationSchema.Statements.{
  Statement, columns_statement, tables_statement, schemas_statement, functions_statement,
  function_columns_statement, indexes_statement, index_columns_statement, columns_formats,
  schemas_formats, functions_formats, function_columns_formats, indexes_formats,
  index_columns_formats, tables_formats, table_sequences_formats,
}
use usql.InformationSchema.Statements.Constraints.{
  constraints_formats, sequences_formats, privileges_formats, constraints_statement, check_columns,
  constraint_columns_statement, sequences_statement, privileges_statement, check_columns_formats,
  key_columns_formats,
}
use usql.InformationSchema.Statements.Shaped.{
  HasShapeOf, conds_shaped, vals_shaped, conds_later, vals_later,
}
use usql.Metadata.Filter.{Filter}

-- The same text, and values as many.
pub record Agree (a b : Statement) : Type 0 where
  pub same_text : a.text ≡ b.text
  pub same_count : length a.vals ≡ length b.vals

agree : {a b : Statement} → a.text ≡ b.text → length a.vals ≡ length b.vals → Agree a b
agree e k = record { same_text = e; same_count = k }

Agree-if :
    (t : Bool) {a b c d : Statement}
    → Agree a b
    → Agree c d
    → Agree (if t then a else c) (if t then b else d)
Agree-if true l r = l
Agree-if false l r = r

both_lengths :
    (a b c d : List Runes)
    → length a ≡ length b
    → length c ≡ length d
    → length (a ++ c) ≡ length (b ++ d)
both_lengths a b c d e k = omega (arith, length-append a c, length-append b d, e, k)

kept_lengths :
    (t : Bool) (a b c d : List Runes)
    → length a ≡ length b
    → length c ≡ length d
    → length (if t then a else c) ≡ length (if t then b else d)
kept_lengths true a b c d e k = e
kept_lengths false a b c d e k = k

module _ (s : Settings) (f g : Filter) (h : HasShapeOf s f g) where
  columns_shaped : Agree (columns_statement s f) (columns_statement s g)
  unfolding columns_statement
  columns_shaped =
      agree (rw (conds_shaped s f g h 1 (columns_formats s)) refl)
        (vals_shaped s f g h 1 (columns_formats s))

  tables_shaped : Agree (tables_statement s f) (tables_statement s g)
  unfolding tables_statement
  tables_shaped =
      let first = vals_shaped s f g h 1 (tables_formats s) in
      let next : length (conditions s 1 f (tables_formats s)).vals + 1
          ≡ length (conditions s 1 g (tables_formats s)).vals + 1 =
        ap (λ (k : ℕ). k + 1) first in
      rw h.sequences (
        Agree-if (among (codes "SEQUENCE") g.types && s.has_sequences)
          (agree
            (rw
              (
                conds_shaped s f g h 1 (tables_formats s),
                conds_later s f g h (table_sequences_formats s) next,
              )
              refl)
            (both_lengths _ _ _ _ first (vals_later s f g h (table_sequences_formats s) next)))
          (agree (rw (conds_shaped s f g h 1 (tables_formats s)) refl) first))

  schemas_shaped : Agree (schemas_statement s f) (schemas_statement s g)
  unfolding schemas_statement
  schemas_shaped =
      agree (rw (conds_shaped s f g h 1 (schemas_formats s)) refl)
        (vals_shaped s f g h 1 (schemas_formats s))

  functions_shaped : Agree (functions_statement s f) (functions_statement s g)
  unfolding functions_statement
  functions_shaped =
      agree (rw (conds_shaped s f g h 1 (functions_formats s)) refl)
        (vals_shaped s f g h 1 (functions_formats s))

  function_columns_shaped : Agree (function_columns_statement s f) (function_columns_statement s g)
  unfolding function_columns_statement
  function_columns_shaped =
      agree (rw (conds_shaped s f g h 1 (function_columns_formats s)) refl)
        (vals_shaped s f g h 1 (function_columns_formats s))

  indexes_shaped : Agree (indexes_statement s f) (indexes_statement s g)
  unfolding indexes_statement
  indexes_shaped =
      agree (rw (conds_shaped s f g h 1 (indexes_formats s)) refl)
        (vals_shaped s f g h 1 (indexes_formats s))

  index_columns_shaped : Agree (index_columns_statement s f) (index_columns_statement s g)
  unfolding index_columns_statement
  index_columns_shaped =
      agree (rw (conds_shaped s f g h 1 (index_columns_formats s)) refl)
        (vals_shaped s f g h 1 (index_columns_formats s))

  constraints_shaped : Agree (constraints_statement s f) (constraints_statement s g)
  unfolding constraints_statement
  constraints_shaped =
      agree (rw (conds_shaped s f g h 1 (constraints_formats s)) refl)
        (vals_shaped s f g h 1 (constraints_formats s))

  sequences_shaped : Agree (sequences_statement s f) (sequences_statement s g)
  unfolding sequences_statement
  sequences_shaped =
      agree (rw (conds_shaped s f g h 1 (sequences_formats s)) refl)
        (vals_shaped s f g h 1 (sequences_formats s))

  privileges_shaped : Agree (privileges_statement s f) (privileges_statement s g)
  unfolding privileges_statement
  privileges_shaped =
      agree (rw (conds_shaped s f g h 1 (privileges_formats s)) refl)
        (vals_shaped s f g h 1 (privileges_formats s))

  check_columns_shaped : Agree (check_columns s f) (check_columns s g)
  unfolding check_columns
  check_columns_shaped =
      Agree-if s.has_check_constraints
        (agree (rw (conds_shaped s f g h 1 (check_columns_formats s)) refl) (
          rw (conds_shaped s f g h 1 (check_columns_formats s)) (
            kept_lengths (has_any (conditions s 1 g (check_columns_formats s)).conds) _ _ [] []
              (vals_shaped s f g h 1 (check_columns_formats s)) refl)))
        (agree refl refl)

  constraint_columns_shaped :
      Agree (constraint_columns_statement s f) (constraint_columns_statement s g)
  unfolding constraint_columns_statement
  constraint_columns_shaped =
      let c = check_columns_shaped in
      let next : length (check_columns s f).vals + 1 ≡ length (check_columns s g).vals + 1 =
        ap (λ (k : ℕ). k + 1) c.same_count in
      agree (rw (c.same_text, conds_later s f g h (key_columns_formats s) next) refl) (
        rw (conds_later s f g h (key_columns_formats s) next) (
          kept_lengths
            (has_any
              (conditions s (length (check_columns s g).vals + 1) g (key_columns_formats s)).conds)
            _ _ _ _
            (both_lengths _ _ _ _ c.same_count (vals_later s f g h (key_columns_formats s) next))
            c.same_count))

  -- No text of a filter gets into a statement: for two filters of one shape, each of the eleven readers runs
  -- the same text, with values as many.
  pub statements_shaped :
      Agree (columns_statement s f) (columns_statement s g)
      × Agree (tables_statement s f) (tables_statement s g)
      × Agree (schemas_statement s f) (schemas_statement s g)
      × Agree (functions_statement s f) (functions_statement s g)
      × Agree (function_columns_statement s f) (function_columns_statement s g)
      × Agree (indexes_statement s f) (indexes_statement s g)
      × Agree (index_columns_statement s f) (index_columns_statement s g)
      × Agree (constraints_statement s f) (constraints_statement s g)
      × Agree (constraint_columns_statement s f) (constraint_columns_statement s g)
      × Agree (sequences_statement s f) (sequences_statement s g)
      × Agree (privileges_statement s f) (privileges_statement s g)
  statements_shaped = (
    columns_shaped, tables_shaped, schemas_shaped, functions_shaped, function_columns_shaped,
    indexes_shaped, index_columns_shaped, constraints_shaped, constraint_columns_shaped,
    sequences_shaped, privileges_shaped,
  )
