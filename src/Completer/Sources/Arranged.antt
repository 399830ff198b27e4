-- ===== src/Completer/Sources/Arranged.antt =====
-- The order in which Go iterates over its maps.
use mathlib.Core.List.{Permᴰ}
use mathlib.Core.List.Permᴰ
use usql.Base.{
  ◌≡◌, refl, ap, Option, none, some, List, [], ◌++◌, ◌&&◌, same, Bool, true, false, if◌then◌else◌,
  Runes,
}
use usql.Completer.Casing.{Casing}
use usql.Metadata.Filter.{Filter, no_filter}
use usql.Completer.Names.{
  Row, Reader, Query, get_names, names_of, schema_names, catalog_names, get_namespaces,
  object_names, schema_filter,
}
use usql.Completer.Names.Order.{sort-Perm}
use usql.Completer.Options.{complete_from_list}
use usql.Completer.Sources.{
  complete_with_objects, complete_with_selectables, complete_with_tables, complete_with_functions,
  complete_with_indexes, complete_with_sequences, complete_with_updatables,
}

append-Permᴰ : {a b c d : List Runes} → Permᴰ a b → Permᴰ c d → Permᴰ (a ++ c) (b ++ d)
append-Permᴰ {b = b} {c = c} p q = Permᴰ.trans (Permᴰ.append_right c p) (Permᴰ.append_left b q)

-- Two orders in which maps are iterated over.
module _ (a b : List Runes → List Runes) (same_names : (l : List Runes) → Permᴰ (a l) (b l)) where
  get_names-Permᴰ :
      (rows : Option (List Row)) (mapper : Row → Runes)
      → Permᴰ (get_names a rows mapper) (get_names b rows mapper)
  unfolding get_names
  get_names-Permᴰ none mapper = Permᴰ.nil
  get_names-Permᴰ (some rows) mapper = same_names _

  names_of-Permᴰ :
      (query : Option Query) (f : Filter) (mapper : Row → Runes)
      → Permᴰ (names_of a query f mapper) (names_of b query f mapper)
  unfolding names_of
  names_of-Permᴰ none f mapper = Permᴰ.nil
  names_of-Permᴰ (some query) f mapper = get_names-Permᴰ (query f) mapper

  object_names-Permᴰ :
      (query : Option Query) (f : Filter) → Permᴰ (object_names a query f) (object_names b query f)
  unfolding object_names
  object_names-Permᴰ query f = names_of-Permᴰ query f _

  if-Permᴰ :
      (t : Bool) {l m : List Runes} → Permᴰ l m → Permᴰ (if t then l else []) (if t then m else [])
  if-Permᴰ true p = p
  if-Permᴰ false p = Permᴰ.nil

  get_namespaces-Permᴰ :
      (r : Reader) (f : Filter) → Permᴰ (get_namespaces a r f) (get_namespaces b r f)
  unfolding get_namespaces catalog_names schema_names
  get_namespaces-Permᴰ r f =
      append-Permᴰ
        (if-Permᴰ (same f.catalog [] && same f.schema []) (names_of-Permᴰ r.catalogs no_filter _))
        (if-Permᴰ (same f.catalog []) (names_of-Permᴰ r.schemas (schema_filter f) _))

  module _ ⦃k : Casing⦄ (r : Reader) (text : Runes) where
    objects_arranged :
        (query : Option Query) (f : Filter)
        → complete_with_objects a r query f text ≡ complete_with_objects b r query f text
    unfolding complete_with_objects
    objects_arranged none f = refl
    objects_arranged (some query) f =
        ap (complete_from_list text)
          (sort-Perm (append-Permᴰ (get_namespaces-Permᴰ r f) (object_names-Permᴰ (some query) f)))

    -- The completions with selectables, tables, functions, indexes, sequences and updatables do not depend on
    -- the orders in which Go iterates over the maps in which the names are collected: for two such orders
    -- they are the same lists.
    pub completions_arranged :
        (types : List Runes)
        → (complete_with_selectables a r text ≡ complete_with_selectables b r text)
          × (complete_with_tables a r text types ≡ complete_with_tables b r text types)
          × (complete_with_functions a r text types ≡ complete_with_functions b r text types)
          × (complete_with_indexes a r text ≡ complete_with_indexes b r text)
          × (complete_with_sequences a r text ≡ complete_with_sequences b r text)
          × (complete_with_updatables a r text ≡ complete_with_updatables b r text)
    unfolding complete_with_selectables complete_with_tables complete_with_functions
        complete_with_indexes complete_with_sequences complete_with_updatables
    completions_arranged types = (
      ap (complete_from_list text) (
          sort-Perm (
            append-Permᴰ
              (append-Permᴰ
                (append-Permᴰ (get_namespaces-Permᴰ r _) (object_names-Permᴰ r.tables _))
                (object_names-Permᴰ r.functions _))
              (object_names-Permᴰ r.sequences _))),
      objects_arranged r.tables _,
      objects_arranged r.functions _,
      objects_arranged r.indexes _,
      objects_arranged r.sequences _,
      ap (complete_from_list text)
          (sort-Perm (append-Permᴰ (get_namespaces-Permᴰ r _) (object_names-Permᴰ r.tables _))),
    )
