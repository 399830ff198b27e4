-- ===== src/Completer/Names.antt =====
-- drivers/completer/completer.go: the reader of the metadata, getNames and getNamespaces.
pub mod Order
use usql.Base.{
  Bool, true, false, ◌&&◌, ◌||◌, Option, none, some, List, [], ◌∷◌, ◌++◌, map, ltb, ◌==◌,
  if◌then◌else◌, Runes, same, among,
}
use usql.Completer.Identifier.{qualified_identifier}
use usql.Metadata.Filter.{Filter, no_filter}

-- What completion reads of a Catalog, a Schema, a Table, a Function, an Index, a Sequence or a Column.
pub record Row : Type 0 where
  pub catalog : Runes
  pub schema : Runes
  pub name : Runes

-- A query: the rows of its result, or an error.
abbrev pub Query : Type 0
Query = Filter → Option (List Row)

-- metadata.Reader: each query is `none` where the reader does not implement its interface.
pub record Reader : Type 0 where
  pub catalogs : Option Query
  pub schemas : Option Query
  pub tables : Option Query
  pub functions : Option Query
  pub indexes : Option Query
  pub sequences : Option Query
  pub columns : Option Query

-- The keys of the map `values`.
unfoldable pub distinct : List Runes → List Runes
distinct [] = []
distinct (s ∷ ss) = let rest = distinct ss in if among s rest then rest else s ∷ rest

-- The order of two strings, by their bytes, is that of their runes.
unfoldable pub comes_before : Runes → Runes → Bool
comes_before [] t = true
comes_before (c ∷ s) [] = false
comes_before (c ∷ s) (d ∷ t) = if ltb c d then true else if c == d then comes_before s t else false

unfoldable pub insert : Runes → List Runes → List Runes
unfolding comes_before
insert s [] = s ∷ []
insert s (t ∷ ts) = let later = insert s ts in if comes_before s t then s ∷ t ∷ ts else t ∷ later

-- `sort.Strings`
unfoldable pub sort : List Runes → List Runes
unfolding insert
sort [] = []
sort (s ∷ ss) = insert s (sort ss)

-- The filter for the schemas of the catalog that the text gives as a schema.
unfoldable pub schema_filter : Filter → Filter
schema_filter f =
    if same f.schema []
    then f
    else record no_filter { catalog = f.schema; name = f.name; with_system = true }

-- `arrange` is the order in which a map is iterated over.
module _ (arrange : List Runes → List Runes) where
  -- A query that fails gives no names.
  unfoldable pub get_names : Option (List Row) → (Row → Runes) → List Runes
  unfolding distinct
  get_names none mapper = []
  get_names (some rows) mapper = arrange (distinct (map mapper rows))

  -- The names that a query gives, if the reader has it.
  unfoldable pub names_of : Option Query → Filter → (Row → Runes) → List Runes
  unfolding get_names
  names_of none f mapper = []
  names_of (some query) f mapper = get_names (query f) mapper

  unfoldable pub schema_names : Option Query → Filter → List Runes
  unfolding names_of schema_filter
  schema_names query f =
      names_of query (schema_filter f) (λ s. qualified_identifier f [] s.catalog s.schema)

  unfoldable pub catalog_names : Reader → Filter → List Runes
  unfolding names_of
  catalog_names r f =
      if same f.catalog [] && same f.schema []
      then names_of r.catalogs no_filter (λ c. c.catalog)
      else []

  unfoldable pub get_namespaces : Reader → Filter → List Runes
  unfolding schema_names catalog_names
  get_namespaces r f =
      catalog_names r f ++ (if same f.catalog [] then schema_names r.schemas f else [])

  -- The names of the tables, functions, indexes or sequences that a filter selects.
  unfoldable pub object_names : Option Query → Filter → List Runes
  unfolding names_of
  object_names query f = names_of query f (λ t. qualified_identifier f t.catalog t.schema t.name)
