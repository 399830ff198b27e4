-- ===== src/Metadata/Filter.antt =====
-- drivers/metadata/metadata.go: Filter.
use usql.Base.{Bool, false, List, [], Runes}

pub record Filter : Type 0 where
  pub catalog : Runes
  pub schema : Runes
  pub parent : Runes
  pub reference : Runes
  pub name : Runes
  pub types : List Runes
  pub with_system : Bool
  pub only_visible : Bool

-- `metadata.Filter{}`
abbrev pub no_filter : Filter
no_filter = record {
  catalog = [];
  schema = [];
  parent = [];
  reference = [];
  name = [];
  types = [];
  with_system = false;
  only_visible = false;
}
