-- ===== src/Completer/Sources.antt =====
-- drivers/completer/completer.go: completion with the names that the reader of the metadata gives, and with variables.
pub mod Arranged
use usql.Base.{
  false, true, Bool, Option, none, some, List, [], ◌∷◌, ◌++◌, ◌&&◌, map, Runes, codes,
  if◌then◌else◌, same,
}
use usql.Completer.Casing.{Casing}
use usql.Completer.Pattern.{CaseType}
use usql.Completer.Options.{Completion, complete_from_list, complete_from_list_case}
use usql.Completer.Identifier.{parse_identifier, parse_parent_identifier}
use usql.Metadata.Filter.{Filter}
use usql.Completer.Names.{Reader, Query, names_of, schema_names, get_namespaces, object_names, sort}

-- `[][]rune{}`
abbrev pub nothing : Completion
nothing = Completion.list []

-- The filter of a text, for objects of some types.
abbrev typed_filter : Runes → List Runes → Filter
typed_filter text types = record (parse_identifier text) { types = types }

abbrev pub table_types : List Runes
table_types =
    map codes ("TABLE" ∷ "BASE TABLE" ∷ "LOCAL TEMPORARY" ∷ "GLOBAL TEMPORARY" ∷ "VIEW" ∷ [])

-- `fmt.Sprintf("%s%s%s", prefix, name, suffix)` for the variables that count.
unfoldable pub variable_names : List (Runes × Runes) → Runes → Runes → Bool → List Runes
variable_names [] prefix suffix need_value = []
variable_names ((name, value) ∷ vars) prefix suffix need_value =
    let rest = variable_names vars prefix suffix need_value in
    if need_value && same value [] then rest else (prefix ++ name ++ suffix) ∷ rest

-- The variables are those of `env.All`, in the order in which the map is iterated over.
unfoldable pub complete_from_variables :
    ⦃k : Casing⦄ → List (Runes × Runes) → Runes → Runes → Runes → Bool → Completion
unfolding variable_names
complete_from_variables vars text prefix suffix need_value =
    complete_from_list_case CaseType.match_case text (variable_names vars prefix suffix need_value)

module _ ⦃k : Casing⦄ (arrange : List Runes → List Runes) (r : Reader) where
  unfoldable pub complete_with_selectables : Runes → Completion
  unfolding object_names
  complete_with_selectables text =
      let f = parse_identifier text in
      complete_from_list text (
        sort (
          ((get_namespaces arrange r f ++ object_names arrange r.tables f)
            ++ object_names arrange r.functions f)
          ++ object_names arrange r.sequences f))

  -- The names that a query gives, and those of the namespaces, sorted.
  unfoldable pub complete_with_objects : Option Query → Filter → Runes → Completion
  unfolding object_names
  complete_with_objects none f text = nothing
  complete_with_objects (some query) f text =
      complete_from_list text
        (sort (get_namespaces arrange r f ++ object_names arrange (some query) f))

  unfoldable pub complete_with_tables : Runes → List Runes → Completion
  unfolding complete_with_objects
  complete_with_tables text types = complete_with_objects r.tables (typed_filter text types) text

  unfoldable pub complete_with_functions : Runes → List Runes → Completion
  unfolding complete_with_objects
  complete_with_functions text types =
      complete_with_objects r.functions (typed_filter text types) text

  unfoldable pub complete_with_indexes : Runes → Completion
  unfolding complete_with_objects
  complete_with_indexes text = complete_with_objects r.indexes (parse_identifier text) text

  unfoldable pub complete_with_sequences : Runes → Completion
  unfolding complete_with_objects
  complete_with_sequences text = complete_with_objects r.sequences (parse_identifier text) text

  unfoldable pub complete_schemas : Option Query → Filter → Runes → Completion
  unfolding schema_names
  complete_schemas none f text = nothing
  complete_schemas (some query) f text =
      complete_from_list text (schema_names arrange (some query) f)

  unfoldable pub complete_with_schemas : Runes → Completion
  unfolding complete_schemas
  complete_with_schemas text = complete_schemas r.schemas (parse_identifier text) text

  unfoldable pub complete_catalogs : Option Query → Filter → Runes → Completion
  unfolding names_of
  complete_catalogs none f text = nothing
  complete_catalogs (some query) f text =
      complete_from_list text (names_of arrange (some query) f (λ c. c.catalog))

  unfoldable pub complete_with_catalogs : Runes → Completion
  unfolding complete_catalogs
  complete_with_catalogs text = complete_catalogs r.catalogs (parse_identifier text) text

  unfoldable pub complete_with_updatables : Runes → Completion
  unfolding object_names
  complete_with_updatables text = complete_from_list text (
      sort (
        get_namespaces arrange r (parse_identifier text)
        ++ object_names arrange r.tables (typed_filter text table_types)))

  unfoldable pub complete_with_attributes : Runes → Runes → List Runes → Completion
  unfolding names_of
  complete_with_attributes selectable text options = complete_from_list text (
      (names_of arrange r.columns (parse_parent_identifier selectable) (λ c. c.name)
        ++ names_of arrange r.functions (record (parse_identifier text) { only_visible = false })
            (λ f. f.name))
      ++ options)
