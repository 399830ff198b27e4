-- ===== src/Completer/Identifier/RoundTrip.antt =====
-- Parsing a qualified identifier gives its parts back.
use usql.Base.{
  ◌≡◌, ◌≢◌, refl, Bool, true, false, ◌==◌, none, some, [], ◌∷◌, ltb, if◌then◌else◌, Runes, same,
  ≢→same, utf8_len, Bool-cases, inl, inr,
}
use usql.Completer.Identifier.{
  cut_dot, percent, name_filter, parse_name, two_or_three, parse_identifier, qualified_identifier,
  dot,
}
use usql.Metadata.Filter.{Filter, no_filter}

-- A part of an identifier has no dot.
abbrev pub NoDot : Runes → Type 0
NoDot [] = Unit {0}
NoDot (c ∷ s) = ((c == b'.') ≡ false) × NoDot s

cut_dot-dot : (s t : Runes) → NoDot s → cut_dot (dot s t) ≡ some (s, t)
unfolding cut_dot
cut_dot-dot [] t h = refl
cut_dot-dot (c ∷ s) t (other, h) = rw (other, cut_dot-dot s t h) refl

cut_dot-none : (s : Runes) → NoDot s → cut_dot s ≡ none
unfolding cut_dot
cut_dot-none [] h = refl
cut_dot-none (c ∷ s) (other, h) = rw (other, cut_dot-none s h) refl

-- The filter for an object of the name.
abbrev pub object_filter : Runes → Runes → Runes → Bool → Bool → Filter
object_filter catalog schema name with_system only_visible = record no_filter {
  catalog = catalog;
  schema = schema;
  name = percent name;
  with_system = with_system;
  only_visible = only_visible;
}

-- The filter for an object, as far as another filter tells its parts apart: by catalog and schema, by schema, or by name.
abbrev pub kept : Filter → Runes → Runes → Runes → Filter
kept f catalog schema name =
    if same f.schema []
    then object_filter [] [] name (ltb 3 (utf8_len (percent name))) true
    else if same f.catalog []
    then object_filter [] schema name true false
    else object_filter catalog schema name true false

-- What qualifiedIdentifier writes, for parts without dots and a schema that is not empty, is parsed to the
-- parts that it wrote: all three of them if the filter has a catalog and a schema, the schema and the name if
-- it has a schema only, and else the name, of an object that is then to be visible. System objects are
-- included where there is a schema, or the name with its percent sign has more than three bytes.
pub parse_identifier-qualified_identifier :
    (f : Filter) (catalog schema name : Runes)
    → NoDot catalog
    → NoDot schema
    → NoDot name
    → schema ≢ []
    → parse_identifier (qualified_identifier f catalog schema name) ≡ kept f catalog schema name
unfolding qualified_identifier parse_identifier parse_name two_or_three name_filter
parse_identifier-qualified_identifier f catalog schema name c s n some_schema =
    elim (Bool-cases (same f.schema [])) [
      | inl bare ↦ elim (Bool-cases (same f.catalog [])) [
        | inl h ↦ rw (h, bare, cut_dot-none name n) refl
        | inr h ↦ rw (h, bare, cut_dot-none name n) refl
      ]
      | inr k ↦ elim (Bool-cases (same f.catalog [])) [
        | inl h ↦
            rw (h, k, cut_dot-dot schema name s, cut_dot-none name n, ≢→same schema [] some_schema)
              refl
        | inr h ↦
            rw
              (
                h,
                k,
                cut_dot-dot catalog (dot schema name) c,
                cut_dot-dot schema name s,
                ≢→same schema [] some_schema,
              )
              refl
      ]
    ]
