-- ===== src/InformationSchema/Conditions/Numbered.antt =====
-- The conditions of a query, numbered one after the other.
use usql.Base.{
  ℕ, ◌+◌, ◌≡◌, refl, sym, ◌∙◌, ap, not, ◌&&◌, inl, inr, List, [], ◌∷◌, ◌++◌, append_assoc,
  append-nil, if◌then◌else◌, Runes, codes, same, length, length-append, arith, Bool-cases,
}
use usql.InformationSchema.Conditions.{
  Settings, Formats, Built, Held, has_any, sprintf, like_cond, hold_one, hold, hold_others,
  start_held, add_set, in_cond, system_cond, visible_cond, types_cond, conditions,
}
use usql.Metadata.Filter.{Filter}
use usql.Metadata.Privileges.{join}

-- A condition: a format for values that are passed, each by a placeholder, or for an expression.
pub data Clause : Type 0 where
  on_values : Runes → Runes → List Runes → Clause
  on_expression : Runes → Runes → Clause

-- The placeholders of values, numbered from one on.
abbrev pub marks : (ℕ → Runes) → ℕ → List Runes → List Runes
marks pf n [] = []
marks pf n (v ∷ vs) = pf n ∷ marks pf (n + 1) vs

abbrev pub clause_values : Clause → List Runes
clause_values (on_values format v vs) = v ∷ vs
clause_values (on_expression format e) = []

abbrev pub clause_text : (ℕ → Runes) → ℕ → Clause → Runes
clause_text pf n (on_values format v vs) = sprintf format (join (codes ", ") (marks pf n (v ∷ vs)))
clause_text pf n (on_expression format e) = sprintf format e

-- The values of all conditions, and their texts, with placeholders numbered through.
abbrev pub all_values : List Clause → List Runes
all_values [] = []
all_values (c ∷ cs) = clause_values c ++ all_values cs

abbrev pub texts : (ℕ → Runes) → ℕ → List Clause → List Runes
texts pf n [] = []
texts pf n (c ∷ cs) = clause_text pf n c ∷ texts pf (n + length (clause_values c)) cs

-- The conditions that a filter asks for.
abbrev pub on_one : Runes → Runes → List Clause
on_one value format =
    if not (same value []) && not (same format []) then on_values format value [] ∷ [] else []

abbrev pub on_set : Runes → List Runes → List Clause
on_set format [] = []
on_set format (v ∷ vs) = on_values format v vs ∷ []

abbrev pub except_schema : Runes → List Runes → List Runes
except_schema schema [] = []
except_schema schema (v ∷ vs) =
    if same v schema then except_schema schema vs else v ∷ except_schema schema vs

module _ (s : Settings) (f : Filter) (fm : Formats) where
  abbrev pub on_system : List Clause
  on_system =
      if not f.with_system && not (same fm.not_schemas []) && has_any s.system_schemas
      then on_set fm.not_schemas (except_schema f.schema s.system_schemas)
      else []

  abbrev pub on_visible : List Clause
  on_visible =
      if f.only_visible && not (same fm.schema []) && not (same s.current_schema [])
      then on_expression fm.schema s.current_schema ∷ []
      else []

  abbrev pub on_types : List Clause
  on_types = if has_any f.types && not (same fm.types []) then on_set fm.types f.types else []

  abbrev pub asked_for : List Clause
  asked_for =
      on_one f.catalog fm.catalog
      ++ on_one f.schema fm.schema
      ++ on_system
      ++ on_visible
      ++ on_one f.parent fm.parent
      ++ on_one f.reference fm.reference
      ++ on_one f.name fm.name
      ++ on_types

all_values-append : (cs ds : List Clause) → all_values (cs ++ ds) ≡ all_values cs ++ all_values ds
all_values-append [] ds = refl
all_values-append (c ∷ cs) ds =
    ap (λ (l : List Runes). clause_values c ++ l) (all_values-append cs ds)
    ∙ sym (append_assoc (clause_values c) (all_values cs) (all_values ds))

texts-append :
    (pf : ℕ → Runes) (n : ℕ) (cs ds : List Clause)
    → texts pf n (cs ++ ds) ≡ texts pf n cs ++ texts pf (n + length (all_values cs)) ds
texts-append pf n [] ds = ap (λ (m : ℕ). texts pf m ds) (omega arith)
texts-append pf n (c ∷ cs) ds =
    ap (λ (l : List Runes). clause_text pf n c ∷ l)
      (texts-append pf (n + length (clause_values c)) cs ds
        ∙ ap (λ (m : ℕ). texts pf (n + length (clause_values c)) cs ++ texts pf m ds)
            (omega (arith, length-append (clause_values c) (all_values cs))))

-- What is built when more conditions follow.
abbrev grown : (ℕ → Runes) → Built → List Clause → Built
grown pf b cs = record {
  base_param = b.base_param + length (all_values cs);
  conds = b.conds ++ texts pf b.base_param cs;
  vals = b.vals ++ all_values cs;
}

built :
    {n m : ℕ} {c d v w : List Runes}
    → n ≡ m
    → c ≡ d
    → v ≡ w
    → ◌≡◌ {A = Built}
        (record { base_param = n; conds = c; vals = v })
        (record { base_param = m; conds = d; vals = w })
built e h k = cc

grown_nothing : (pf : ℕ → Runes) (b : Built) → b ≡ grown pf b []
grown_nothing pf b = built (omega arith) (sym (append-nil _)) (sym (append-nil _))

grown_more :
    (pf : ℕ → Runes) (b : Built) (cs ds : List Clause)
    → grown pf (grown pf b cs) ds ≡ grown pf b (cs ++ ds)
grown_more pf b cs ds =
    built
      (omega
        (arith, ap length (all_values-append cs ds), length-append (all_values cs) (all_values ds)))
      (append_assoc b.conds (texts pf b.base_param cs) _
        ∙ ap (λ (l : List Runes). b.conds ++ l) (sym (texts-append pf b.base_param cs ds)))
      (append_assoc b.vals (all_values cs) (all_values ds)
        ∙ ap (λ (l : List Runes). b.vals ++ l) (sym (all_values-append cs ds)))

module _ (s : Settings) where
  like_cond-grown :
      (value format : Runes) (b : Built)
      → like_cond s value format b ≡ grown s.pf b (on_one value format)
  unfolding like_cond
  like_cond-grown value format b = elim (Bool-cases (not (same value []) && not (same format []))) [
    | inl asked ↦ rw asked (built refl refl refl)
    | inr no! ↦ rw no! (grown_nothing s.pf b)
  ]

  -- What is held when values follow.
  abbrev held_more : Held → List Runes → Held
  held_more h vs = record {
    next_param = h.next_param + length vs;
    held_vals = h.held_vals ++ vs;
    pholders = h.pholders ++ marks s.pf h.next_param vs;
  }

  held :
      {n m : ℕ} {v w p q : List Runes}
      → n ≡ m
      → v ≡ w
      → p ≡ q
      → ◌≡◌ {A = Held}
          (record { next_param = n; held_vals = v; pholders = p })
          (record { next_param = m; held_vals = w; pholders = q })
  held e h k = cc

  hold_more : (vs : List Runes) (h : Held) → hold s vs h ≡ held_more h vs
  unfolding hold hold_one
  hold_more [] h = held (omega arith) (sym (append-nil h.held_vals)) (sym (append-nil h.pholders))
  hold_more (v ∷ vs) h =
      hold_more vs (hold_one s v h)
      ∙ held (omega arith) (append_assoc h.held_vals (v ∷ []) vs)
          (append_assoc h.pholders (s.pf h.next_param ∷ []) (marks s.pf (h.next_param + 1) vs))

  hold_others_lem :
      (schema : Runes) (vs : List Runes) (h : Held)
      → hold_others s schema vs h ≡ hold s (except_schema schema vs) h
  unfolding hold_others hold
  hold_others_lem schema [] h = refl
  hold_others_lem schema (v ∷ vs) h = elim (Bool-cases (same v schema)) [
    | inl same! ↦ rw same! (hold_others_lem schema vs h)
    | inr other! ↦ rw other! (hold_others_lem schema vs (hold_one s v h))
  ]

  in_cond-grown :
      (format : Runes) (b : Built) (vs : List Runes)
      → in_cond s format b (hold s vs (start_held s b)) ≡ grown s.pf b (on_set format vs)
  unfolding in_cond add_set start_held
  in_cond-grown format b [] =
      ap (in_cond s format b) (hold_more [] (start_held s b))
      ∙ built refl (sym (append-nil b.conds)) refl
  in_cond-grown format b (v ∷ vs) =
      ap (in_cond s format b) (hold_more (v ∷ vs) (start_held s b))
      ∙ built (ap (λ (l : List Runes). b.base_param + length l) (sym (append-nil (v ∷ vs)))) refl
          (ap (λ (l : List Runes). b.vals ++ l) (sym (append-nil (v ∷ vs))))

  module _ (f : Filter) (fm : Formats) (b : Built) where
    system_cond-grown : system_cond s f fm b ≡ grown s.pf b (on_system s f fm)
    unfolding system_cond
    system_cond-grown =
        elim (Bool-cases
          (not f.with_system && not (same fm.not_schemas []) && has_any s.system_schemas)) [
            | inl asked ↦
                rw (asked, hold_others_lem f.schema s.system_schemas (start_held s b))
                  (in_cond-grown fm.not_schemas b (except_schema f.schema s.system_schemas))
            | inr no! ↦ rw no! (grown_nothing s.pf b)
          ]

    visible_cond-grown : visible_cond s f fm b ≡ grown s.pf b (on_visible s f fm)
    unfolding visible_cond
    visible_cond-grown =
        elim (Bool-cases
          (f.only_visible && not (same fm.schema []) && not (same s.current_schema []))) [
            | inl asked ↦ rw asked (built (omega arith) refl (sym (append-nil b.vals)))
            | inr no! ↦ rw no! (grown_nothing s.pf b)
          ]

    types_cond-grown : types_cond s f fm b ≡ grown s.pf b (on_types s f fm)
    unfolding types_cond
    types_cond-grown = elim (Bool-cases (has_any f.types && not (same fm.types []))) [
      | inl asked ↦ rw asked (in_cond-grown fm.types b f.types)
      | inr no! ↦ rw no! (grown_nothing s.pf b)
    ]

  -- One more condition.
  then_grown :
      (next : Built → Built) (more : List Clause)
      → ((b : Built) → next b ≡ grown s.pf b more)
      → (start b : Built) (cs : List Clause) → b ≡ grown s.pf start cs
      → next b ≡ grown s.pf start (cs ++ more)
  then_grown next more h start b cs e =
      ap next e ∙ h (grown s.pf start cs) ∙ grown_more s.pf start cs more

  -- The conditions for a filter are those that its fields ask for, in a fixed order: on the catalog, the
  -- schema, the system schemas other than the filter's, the current schema, the parent, the reference, the
  -- name and the types, each where the filter and the formats have it. Every value is passed as a parameter,
  -- in that order, and its placeholder has its number, from `base_param` on.
  pub conditions_lem :
      (base_param : ℕ) (f : Filter) (fm : Formats)
      → conditions s base_param f fm ≡ record {
        base_param = base_param + length (all_values (asked_for s f fm));
        conds = texts s.pf base_param (asked_for s f fm);
        vals = all_values (asked_for s f fm);
      }
  unfolding conditions
  conditions_lem base_param f fm =
      let start : Built = record { base_param = base_param; conds = []; vals = [] } in
      let one : (v m : Runes) (b : Built) → like_cond s v m b ≡ grown s.pf b (on_one v m) =
        like_cond-grown in
      then_grown (types_cond s f fm) _ (types_cond-grown f fm) start _ _ (
        then_grown (like_cond s f.name fm.name) _ (one f.name fm.name) start _ _ (
          then_grown (like_cond s f.reference fm.reference) _ (one f.reference fm.reference) start _
            _
            (then_grown (like_cond s f.parent fm.parent) _ (one f.parent fm.parent) start _ _ (
              then_grown (visible_cond s f fm) _ (visible_cond-grown f fm) start _ _ (
                then_grown (system_cond s f fm) _ (system_cond-grown f fm) start _ _ (
                  then_grown (like_cond s f.schema fm.schema) _ (one f.schema fm.schema) start _ _
                    (one f.catalog fm.catalog start)))))))
