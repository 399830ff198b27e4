-- ===== src/InformationSchema/Tests.antt =====
-- Runs of the readers of information_schema.
use usql.Base.{ℕ, ◌≡◌, refl, true, none, [], ◌∷◌, codes}
use usql.Env.Parse.{ℤ, format_int, decimal_loop}
use usql.InformationSchema.Conditions.{sprintf, query_text}
use usql.InformationSchema.Defaults.{new_settings, dollar_placeholder, set_limit}
use usql.InformationSchema.Rows.{Answer, Scanned, Listed, read_schemas}
use usql.InformationSchema.Statements.{schemas_statement}
use usql.Metadata.Filter.{Filter, no_filter}

named : Filter
named = record no_filter { catalog = codes "db"; name = codes "x%" }

schemas_text :
    (schemas_statement (set_limit (ℤ.pos 30) new_settings) named).text
    ≡ codes
        "SELECT\n  schema_name,\n  catalog_name\nFROM information_schema.schemata\n\nWHERE catalog_name LIKE $1 AND schema_name NOT IN ($2) AND schema_name LIKE $3\nORDER BY catalog_name, schema_name\nLIMIT 30"
unfolding schemas_statement named sprintf query_text new_settings dollar_placeholder format_int
    decimal_loop set_limit
schemas_text = refl

schemas_vals :
    (schemas_statement new_settings named).vals
    ≡ codes "db" ∷ codes "information_schema" ∷ codes "x%" ∷ []
unfolding schemas_statement named new_settings
schemas_vals = refl

dry_schemas :
    read_schemas {A = ℕ} new_settings true (λ q. Answer.rows (Scanned.good 1 ∷ []) none) named
    ≡ Listed.listed []
unfolding read_schemas
dry_schemas = refl
