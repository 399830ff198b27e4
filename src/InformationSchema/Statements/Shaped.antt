-- ===== src/InformationSchema/Statements/Shaped.antt =====
-- What of a filter gets into the conditions of a statement.
use mathlib.Core.Path.{ap₂}
use mathlib.Core.List.{head-eq_of_cons-eq, tail-eq_of_cons-eq}
use usql.Metadata.Privileges.{join}
use usql.Base.{
  ℕ, suc, ◌+◌, ◌≡◌, refl, ◌∙◌, ap, Bool, true, false, not, ◌&&◌, inl, inr, List, [], ◌∷◌, ◌++◌, map,
  if◌then◌else◌, Runes, codes, same, among, length, length-append, arith, Bool-cases,
}
use usql.InformationSchema.Conditions.{Settings, Formats, has_any, sprintf, conditions}
use usql.InformationSchema.Conditions.Numbered.{
  Clause, on_values, on_expression, marks, all_values, texts, on_one, on_set, except_schema,
  on_system, on_visible, on_types, asked_for, conditions_lem,
}
use usql.Metadata.Filter.{Filter}

-- Conditions of one form, whatever their values are.
pub data Alike : List Clause → List Clause → Type 0 where
  no_clause : Alike [] []
  values_clause :
      {cs ds : List Clause} (format v w : Runes) (vs ws : List Runes)
      → length vs ≡ length ws
      → Alike cs ds
      → Alike (on_values format v vs ∷ cs) (on_values format w ws ∷ ds)
  expression_clause :
      {cs ds : List Clause} (format e : Runes)
      → Alike cs ds
      → Alike (on_expression format e ∷ cs) (on_expression format e ∷ ds)

Alike-append : {xs ys cs ds : List Clause} → Alike xs ys → Alike cs ds → Alike (xs ++ cs) (ys ++ ds)
Alike-append no_clause r = r
Alike-append (values_clause format v w vs ws e l) r =
    values_clause format v w vs ws e (Alike-append l r)
Alike-append (expression_clause format e l) r = expression_clause format e (Alike-append l r)

marks-length :
    (pf : ℕ → Runes) (n : ℕ) (vs ws : List Runes)
    → length vs ≡ length ws
    → marks pf n vs ≡ marks pf n ws
marks-length pf n [] [] e = refl
marks-length pf n [] (w ∷ ws) e = absurd (omega (arith, e))
marks-length pf n (v ∷ vs) [] e = absurd (omega (arith, e))
marks-length pf n (v ∷ vs) (w ∷ ws) e =
    ap (λ (l : List Runes). pf n ∷ l) (marks-length pf (n + 1) vs ws (omega (arith, e)))

Alike-texts :
    (pf : ℕ → Runes) (n : ℕ) {cs ds : List Clause} → Alike cs ds → texts pf n cs ≡ texts pf n ds
Alike-texts pf n no_clause = refl
Alike-texts pf n (expression_clause format e l) =
    ap (λ (ts : List Runes). sprintf format e ∷ ts) (Alike-texts pf (n + 0) l)
Alike-texts pf n (values_clause {ds = ds} format v w vs ws e l) =
    ap₂ (λ (ms ts : List Runes). sprintf format (join (codes ", ") (pf n ∷ ms)) ∷ ts)
      (marks-length pf (n + 1) vs ws e)
      (Alike-texts pf (n + suc (length vs)) l ∙ ap (λ (k : ℕ). texts pf (n + suc k) ds) e)

Alike-all_values :
    {cs ds : List Clause} → Alike cs ds → length (all_values cs) ≡ length (all_values ds)
Alike-all_values no_clause = refl
Alike-all_values (expression_clause format e l) = Alike-all_values l
Alike-all_values (values_clause {cs} {ds} format v w vs ws e l) = omega (
  arith,
  length-append vs (all_values cs),
  length-append ws (all_values ds),
  e,
  Alike-all_values l,
)

-- Filters that have the same fields set, and types as many, and agree on which of the system schemas they
-- name and on whether sequences are among the types.
pub record HasShapeOf (s : Settings) (f g : Filter) : Type 0 where
  pub catalog : same f.catalog [] ≡ same g.catalog []
  pub schema : same f.schema [] ≡ same g.schema []
  pub parent : same f.parent [] ≡ same g.parent []
  pub reference : same f.reference [] ≡ same g.reference []
  pub name : same f.name [] ≡ same g.name []
  pub types : length f.types ≡ length g.types
  pub sequences : among (codes "SEQUENCE") f.types ≡ among (codes "SEQUENCE") g.types
  pub with_system : f.with_system ≡ g.with_system
  pub only_visible : f.only_visible ≡ g.only_visible
  pub system :
      map (λ (v : Runes). same v f.schema) s.system_schemas
      ≡ map (λ (v : Runes). same v g.schema) s.system_schemas

one-Alike : (v w format : Runes) → same v [] ≡ same w [] → Alike (on_one v format) (on_one w format)
one-Alike v w format e = elim (Bool-cases (not (same w []) && not (same format []))) [
  | inl asked ↦ rw (e, asked) (values_clause format v w [] [] refl no_clause)
  | inr no! ↦ rw (e, no!) no_clause
]

set-Alike :
    (format : Runes) (vs ws : List Runes)
    → length vs ≡ length ws
    → Alike (on_set format vs) (on_set format ws)
set-Alike format [] [] e = no_clause
set-Alike format [] (w ∷ ws) e = absurd (omega (arith, e))
set-Alike format (v ∷ vs) [] e = absurd (omega (arith, e))
set-Alike format (v ∷ vs) (w ∷ ws) e = values_clause format v w vs ws (omega (arith, e)) no_clause

except_schema-same :
    (a b : Runes) (vs : List Runes)
    → map (λ (v : Runes). same v a) vs ≡ map (λ (v : Runes). same v b) vs
    → except_schema a vs ≡ except_schema b vs
except_schema-same a b [] e = refl
except_schema-same a b (v ∷ vs) e =
    let head : same v a ≡ same v b = head-eq_of_cons-eq e in
    let rest = except_schema-same a b vs (tail-eq_of_cons-eq e) in
    elim (Bool-cases (same v b)) [
      | inl named ↦ rw (head, named) rest
      | inr other ↦ rw (head, other) (ap (λ (l : List Runes). v ∷ l) rest)
    ]

Alike-refl : (cs : List Clause) → Alike cs cs
Alike-refl [] = no_clause
Alike-refl (on_values format v vs ∷ cs) = values_clause format v v vs vs refl (Alike-refl cs)
Alike-refl (on_expression format e ∷ cs) = expression_clause format e (Alike-refl cs)

if-Alike :
    (t : Bool) {cs ds : List Clause}
    → Alike cs ds
    → Alike (if t then cs else []) (if t then ds else [])
if-Alike true l = l
if-Alike false l = no_clause

has_any-length : (vs ws : List Runes) → length vs ≡ length ws → has_any vs ≡ has_any ws
has_any-length [] [] e = refl
has_any-length [] (w ∷ ws) e = absurd (omega (arith, e))
has_any-length (v ∷ vs) [] e = absurd (omega (arith, e))
has_any-length (v ∷ vs) (w ∷ ws) e = refl

module _ (s : Settings) (f g : Filter) (h : HasShapeOf s f g) where
  system-Alike : (fm : Formats) → Alike (on_system s f fm) (on_system s g fm)
  system-Alike fm =
      rw (h.with_system, except_schema-same f.schema g.schema s.system_schemas h.system)
        (Alike-refl (on_system s g fm))

  visible-Alike : (fm : Formats) → Alike (on_visible s f fm) (on_visible s g fm)
  visible-Alike fm = rw h.only_visible (Alike-refl (on_visible s g fm))

  types-Alike : (fm : Formats) → Alike (on_types s f fm) (on_types s g fm)
  types-Alike fm = rw (has_any-length f.types g.types h.types) (
      if-Alike (has_any g.types && not (same fm.types []))
        (set-Alike fm.types f.types g.types h.types))

  asked_for-Alike : (fm : Formats) → Alike (asked_for s f fm) (asked_for s g fm)
  asked_for-Alike fm =
      Alike-append
        (Alike-append
          (Alike-append
            (Alike-append
              (Alike-append
                (Alike-append
                  (Alike-append (one-Alike f.catalog g.catalog fm.catalog h.catalog)
                    (one-Alike f.schema g.schema fm.schema h.schema))
                  (system-Alike fm))
                (visible-Alike fm))
              (one-Alike f.parent g.parent fm.parent h.parent))
            (one-Alike f.reference g.reference fm.reference h.reference))
          (one-Alike f.name g.name fm.name h.name))
        (types-Alike fm)

  pub conds_shaped :
      (n : ℕ) (fm : Formats) → (conditions s n f fm).conds ≡ (conditions s n g fm).conds
  conds_shaped n fm =
      rw (conditions_lem s n f fm, conditions_lem s n g fm)
        (Alike-texts s.pf n (asked_for-Alike fm))

  pub vals_shaped :
      (n : ℕ) (fm : Formats) → length (conditions s n f fm).vals ≡ length (conditions s n g fm).vals
  vals_shaped n fm =
      rw (conditions_lem s n f fm, conditions_lem s n g fm) (Alike-all_values (asked_for-Alike fm))

  -- The numbers of the first parameters may be computed from the values before them.
  pub conds_later :
      {n m : ℕ} (fm : Formats) → n ≡ m → (conditions s n f fm).conds ≡ (conditions s m g fm).conds
  conds_later {m = m} fm e = ap (λ (k : ℕ). (conditions s k f fm).conds) e ∙ conds_shaped m fm

  pub vals_later :
      {n m : ℕ} (fm : Formats)
      → n ≡ m
      → length (conditions s n f fm).vals ≡ length (conditions s m g fm).vals
  vals_later {m = m} fm e = ap (λ (k : ℕ). length (conditions s k f fm).vals) e ∙ vals_shaped m fm
