-- ===== src/Completer/Identifier.antt =====
-- drivers/completer/completer.go: parseIdentifier, parseParentIdentifier and qualifiedIdentifier.
pub mod RoundTrip
use usql.Metadata.Filter.{Filter, no_filter}
use usql.Base.{
  Bool, true, false, not, ◌&&◌, ◌||◌, Option, none, some, List, [], ◌∷◌, ◌++◌, ltb, ◌==◌,
  if◌then◌else◌, Runes, codes, same, utf8_len, ℕ,
}

-- The texts before and behind the first dot.
unfoldable pub cut_dot : Runes → Option (Runes × Runes)
cut_dot [] = none
cut_dot (c ∷ s) =
    let rest = cut_dot s in
    if c == b'.' then some ([], s) else elim rest [ none ↦ none | some p ↦ some (c ∷ p.0, p.1) ]

-- The fields of the parts of `strings.SplitN(name, ".", 3)`: the catalog, the schema and the last part.
pub record Parts : Type 0 where
  pub catalog : Runes
  pub schema : Runes
  pub last : Runes

two_or_three : Runes → Runes → Option (Runes × Runes) → Parts
two_or_three a rest none = record { catalog = []; schema = a; last = rest }
two_or_three a rest (some (b, c)) = record { catalog = a; schema = b; last = c }

abbrev pub percent : Runes → Runes
percent s = s ++ codes "%"

name_filter : Parts → Bool → Filter
name_filter p visible = record no_filter {
  catalog = p.catalog;
  schema = p.schema;
  name = percent p.last;
  with_system = not (same p.schema []) || ltb 3 (utf8_len (percent p.last));
  only_visible = visible;
}

parse_name : Runes → Option (Runes × Runes) → Filter
unfolding two_or_three name_filter
parse_name name none = name_filter (record { catalog = []; schema = []; last = name }) true
parse_name name (some (a, rest)) = name_filter (two_or_three a rest (cut_dot rest)) false

unfoldable pub parse_identifier : Runes → Filter
unfolding parse_name cut_dot
parse_identifier name = parse_name name (cut_dot name)

parent_filter : Parts → Bool → Filter
parent_filter p visible = record no_filter {
  catalog = p.catalog;
  schema = p.schema;
  parent = p.last;
  with_system = not (same p.schema []);
  only_visible = visible;
}

parse_parent : Runes → Option (Runes × Runes) → Filter
unfolding two_or_three parent_filter
parse_parent name none = parent_filter (record { catalog = []; schema = []; last = name }) true
parse_parent name (some (a, rest)) = parent_filter (two_or_three a rest (cut_dot rest)) false

unfoldable pub parse_parent_identifier : Runes → Filter
unfolding parse_parent cut_dot
parse_parent_identifier name = parse_parent name (cut_dot name)

abbrev pub dot : Runes → Runes → Runes
dot s t = s ++ b'.' ∷ t

unfoldable pub qualified_identifier : Filter → Runes → Runes → Runes → Runes
qualified_identifier f catalog schema name =
    if not (same f.catalog []) && not (same f.schema [])
    then dot catalog (dot schema name)
    else if not (same f.schema [])
    then dot schema name
    else name
