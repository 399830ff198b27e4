-- ===== src/InformationSchema/Conditions.antt =====
-- drivers/metadata/informationschema/metadata.go: the reader's settings, and `conditions` and `query`.
pub mod Numbered
use usql.Base.{
  ℕ, ◌+◌, Bool, true, false, not, ◌&&◌, ◌||◌, List, [], ◌∷◌, ◌++◌, ◌==◌, if◌then◌else◌, Runes,
  codes, same,
}
use usql.Env.Parse.{ℤ, format_int}
use usql.Metadata.Filter.{Filter}
use usql.Metadata.Privileges.{join}

pub data ClauseName : Type 0 where
  columns_data_type columns_column_size columns_numeric_scale columns_numeric_prec_radix :
      ClauseName
  columns_char_octet_length function_columns_column_size function_columns_numeric_scale : ClauseName
  function_columns_numeric_prec_radix function_columns_char_octet_length functions_security_type :
      ClauseName
  constraint_is_deferrable constraint_initially_deferred constraint_join_cond : ClauseName
  sequence_columns_increment privileges_grantor : ClauseName

-- InformationSchema; the functions that connect to the database and format types are elsewhere.
pub record Settings : Type 0 where
  -- The placeholder of a parameter with its number.
  pub pf : ℕ → Runes
  pub has_functions : Bool
  pub has_sequences : Bool
  pub has_indexes : Bool
  pub has_constraints : Bool
  pub has_check_constraints : Bool
  pub has_table_privileges : Bool
  pub has_column_privileges : Bool
  pub has_usage_privileges : Bool
  pub clauses : ClauseName → Runes
  pub limit : ℤ
  pub system_schemas : List Runes
  pub current_schema : Runes

pub record Formats : Type 0 where
  pub catalog : Runes
  pub schema : Runes
  pub not_schemas : Runes
  pub parent : Runes
  pub reference : Runes
  pub name : Runes
  pub types : Runes

abbrev pub no_formats : Formats
no_formats = record {
  catalog = [];
  schema = [];
  not_schemas = [];
  parent = [];
  reference = [];
  name = [];
  types = [];
}

-- `fmt.Sprintf(format, arg)` for the formats of this package, in which `%s` stands once and no other verb.
unfoldable pub sprintf : Runes → Runes → Runes
sprintf [] arg = []
sprintf (c ∷ []) arg = c ∷ []
sprintf (c ∷ d ∷ s) arg =
    let rest = sprintf (d ∷ s) arg in if c == b'%' && d == b's' then arg ++ s else c ∷ rest

-- The next parameter, the conditions and the values so far.
pub record Built : Type 0 where
  pub base_param : ℕ
  pub conds : List Runes
  pub vals : List Runes

-- The same for the placeholders of one condition.
pub record Held : Type 0 where
  pub next_param : ℕ
  pub held_vals : List Runes
  pub pholders : List Runes

-- `len(ss) != 0`
abbrev pub has_any : List Runes → Bool
has_any [] = false
has_any (s ∷ ss) = true

abbrev pub is_zero : ℤ → Bool
is_zero (ℤ.pos n) = n == 0
is_zero (ℤ.negsuc n) = false

module _ (s : Settings) where
  -- A condition on one value.
  unfoldable pub like_cond : Runes → Runes → Built → Built
  unfolding sprintf
  like_cond value format b =
      if not (same value []) && not (same format [])
      then record {
        base_param = b.base_param + 1;
        conds = b.conds ++ sprintf format (s.pf b.base_param) ∷ [];
        vals = b.vals ++ value ∷ [];
      }
      else b

  unfoldable pub hold_one : Runes → Held → Held
  hold_one v h = record {
    next_param = h.next_param + 1;
    held_vals = h.held_vals ++ v ∷ [];
    pholders = h.pholders ++ s.pf h.next_param ∷ [];
  }

  -- The loop over the types.
  unfoldable pub hold : List Runes → Held → Held
  unfolding hold_one
  hold [] h = h
  hold (v ∷ vs) h = hold vs (hold_one v h)

  -- The loop over the system schemas, except_schema the schema of the filter.
  unfoldable pub hold_others : Runes → List Runes → Held → Held
  unfolding hold_one
  hold_others schema [] h = h
  hold_others schema (v ∷ vs) h =
      let kept = hold_others schema vs (hold_one v h) in
      let skipped = hold_others schema vs h in if same v schema then skipped else kept

  unfoldable pub start_held : Built → Held
  start_held b = record { next_param = b.base_param; held_vals = b.vals; pholders = [] }

  -- The condition on a set of values, where it is not empty.
  unfoldable pub add_set : Runes → List Runes → List Runes → List Runes
  unfolding sprintf
  add_set format conds [] = conds
  add_set format conds (p ∷ ps) = conds ++ sprintf format (join (codes ", ") (p ∷ ps)) ∷ []

  unfoldable pub in_cond : Runes → Built → Held → Built
  unfolding add_set
  in_cond format b h = record {
    base_param = h.next_param;
    conds = add_set format b.conds h.pholders;
    vals = h.held_vals;
  }

  unfoldable pub system_cond : Filter → Formats → Built → Built
  unfolding in_cond hold_others start_held
  system_cond f fm b =
      if not f.with_system && not (same fm.not_schemas []) && has_any s.system_schemas
      then in_cond fm.not_schemas b (hold_others f.schema s.system_schemas (start_held b))
      else b

  unfoldable pub visible_cond : Filter → Formats → Built → Built
  unfolding sprintf
  visible_cond f fm b =
      if f.only_visible && not (same fm.schema []) && not (same s.current_schema [])
      then record b { conds = b.conds ++ sprintf fm.schema s.current_schema ∷ [] }
      else b

  unfoldable pub types_cond : Filter → Formats → Built → Built
  unfolding in_cond hold start_held
  types_cond f fm b =
      if has_any f.types && not (same fm.types [])
      then in_cond fm.types b (hold f.types (start_held b))
      else b

  unfoldable pub conditions : ℕ → Filter → Formats → Built
  unfolding like_cond system_cond visible_cond types_cond
  conditions base_param f fm =
      let b : Built = record { base_param = base_param; conds = []; vals = [] } in
      let b = like_cond f.schema fm.schema (like_cond f.catalog fm.catalog b) in
      let b = visible_cond f fm (system_cond f fm b) in
      let b = like_cond f.reference fm.reference (like_cond f.parent fm.parent b) in
      types_cond f fm (like_cond f.name fm.name b)

  -- The text that `query` runs.
  unfoldable pub query_text : Runes → List Runes → Runes → Runes
  unfolding format_int
  query_text qstr conds order =
      let q =
        if has_any conds then qstr ++ (codes "\nWHERE " ++ join (codes " AND ") conds) else qstr in
      let q = if same order [] then q else q ++ (codes "\nORDER BY " ++ order) in
      if is_zero s.limit then q else q ++ (codes "\nLIMIT " ++ format_int s.limit)
