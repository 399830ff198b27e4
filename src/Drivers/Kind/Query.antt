-- ===== src/Drivers/Kind/Query.antt =====
-- Which prefixes are queries, and that the type of a prefix is its own beginning.
use usql.Base.{
  ℕ, zero, suc, ◌≡◌, ◌≢◌, ◌<◌, refl, sym, ◌∙◌, ap, Bool, true, false, ◌&&◌, inl, inr, List, [], ◌∷◌,
  ◌++◌, arith, Runes, codes, same, among, take, Bool-cases, ≢→same, same→≡, append_assoc, ◌==◌,
  ==_iff, if_rule,
}
use mathlib.Core.Path.{ap₂, subst}
use usql.Drivers.Kind.Counted.{Counts, no_more, counts, ignored}
use usql.Drivers.Kind.Longest.{IsExecType, longest, unknown, query_exec_type-split}
use usql.Drivers.Kind.{
  query_map, split_words, join_words, query_type, query_exec_type, starts_with_into,
}

join-cons :
    (c : ℕ) (w : Runes) (ws : List Runes) → join_words ((c ∷ w) ∷ ws) ≡ c ∷ join_words (w ∷ ws)
unfolding join_words
join-cons c w [] = refl
join-cons c w (v ∷ ws) = refl

join-split : (s : Runes) → join_words ((split_words s).0 ∷ (split_words s).1) ≡ s
unfolding split_words join_words
join-split [] = refl
join-split (c ∷ s) = elim (Bool-cases (c == b' ')) [
  | inl blank ↦
      rw blank (ap₂ (λ (d : ℕ) (t : Runes). d ∷ t) (sym ((==_iff c b' ').0 blank)) (join-split s))
  | inr other ↦
      rw other
        (join-cons c (split_words s).0 (split_words s).1 ∙ ap (λ (t : Runes). c ∷ t) (join-split s))
]

-- The type is the whole prefix, or its beginning up to a blank.
pub data Begins (s t : Runes) : Type 0 where
  all : s ≡ t → Begins s t
  up_to : (rest : Runes) → s ≡ t ++ b' ' ∷ rest → Begins s t

-- The first words are the beginning of all.
join-take :
    (w : Runes) (ws : List Runes) (k : ℕ)
    → Begins (join_words (w ∷ ws)) (join_words (take (suc k) (w ∷ ws)))
unfolding join_words
join-take w [] zero = all refl
join-take w [] (suc k) = all refl
join-take w (v ∷ ws) zero = up_to (join_words (v ∷ ws)) refl
join-take w (v ∷ ws) (suc k) = elim (join-take v ws k) [
  | all is ↦ all (ap (λ (t : Runes). w ++ b' ' ∷ t) is)
  | up_to rest is ↦ up_to rest (
      ap (λ (t : Runes). w ++ b' ' ∷ t) is
      ∙ sym (append_assoc w (b' ' ∷ join_words (v ∷ take k ws)) (b' ' ∷ rest)))
]

module _ (first : Runes) (words : List Runes) where
  run-Begins :
      (typ : Runes) (k : ℕ)
      → 0 < k
      → typ ≡ join_words (take k (first ∷ words))
      → Begins (join_words (first ∷ words)) typ
  run-Begins typ zero some_words is = absurd (omega arith)
  run-Begins typ (suc k) some_words is =
      subst (Begins (join_words (first ∷ words))) (sym is) (join-take first words k)

  exec-Begins :
      (typ : Runes) → IsExecType first (first ∷ words) typ → Begins (join_words (first ∷ words)) typ
  unfolding join_words
  exec-Begins typ (longest k some_words inside is there longer) = run-Begins typ k some_words is
  exec-Begins typ (unknown is others) = run-Begins typ 1 (omega arith) is

  first-Begins : Begins (join_words (first ∷ words)) first
  unfolding join_words
  first-Begins = run-Begins first 1 (omega arith) refl

both : (a b : Bool) → (a && b) ≡ true → (a ≡ true) × (b ≡ true)
both a b h = (ground (arith, h), ground (arith, h))

query-Begins :
    (first : Runes) (words : List Runes) (sqlstr : Runes)
    → Begins (join_words (first ∷ words)) (query_type first words sqlstr).0
unfolding query_type join_words
query-Begins first words sqlstr =
    if_rule (λ (p : Runes × Bool). Begins (join_words (first ∷ words)) p.0)
      (same first (codes "SELECT") && starts_with_into words)
      (λ c. into words (both _ _ c).0 (both _ _ c).1)
      (λ _.
        if_rule (λ (p : Runes × Bool). Begins (join_words (first ∷ words)) p.0)
          (same first (codes "PRAGMA")) (λ _. first-Begins first words)
          (λ _. first-Begins first words))
  where
    into :
        (ws : List Runes)
        → same first (codes "SELECT") ≡ true
        → starts_with_into ws ≡ true
        → Begins (join_words (first ∷ ws)) (codes "SELECT INTO")
    into [] select c = absurd (ground (arith, c))
    into (w ∷ ws) select c =
        run-Begins first (w ∷ ws) (codes "SELECT INTO") 2 (omega arith)
          (sym (ap₂ (λ (s t : Runes). s ++ b' ' ∷ t) (same→≡ first _ select) (same→≡ w _ c)))

Counts-all :
    (first : Runes) (words ws : List Runes)
    → same first (codes "CREATE") ≡ false
    → same first (codes "DROP") ≡ false
    → Counts first words ws
    → ws ≡ words
Counts-all first [] ws no_create no_drop no_more = refl
Counts-all first (w ∷ words) (v ∷ ws) no_create no_drop (counts e rest) =
    ap (λ (vs : List Runes). w ∷ vs) (Counts-all first words ws no_create no_drop rest)
Counts-all first (w ∷ words) ws no_create no_drop (ignored e rest) =
    absurd (false_is_not_true (rw (no_create, no_drop) at e))
  where
    false_is_not_true : ◌≡◌ {A = Bool} false true → ⊥
    false_is_not_true e = cc

-- The type of a prefix that is not empty, and whose first word is not CREATE or DROP, is that prefix or its
-- beginning up to a blank, be it of a query or of an execution.
pub query_exec_type-Begins :
    (prefix sqlstr : Runes)
    → prefix ≢ []
    → same (split_words prefix).0 (codes "CREATE") ≡ false
    → same (split_words prefix).0 (codes "DROP") ≡ false
    → Begins prefix (query_exec_type prefix sqlstr).0
unfolding query_exec_type join_words
query_exec_type-Begins prefix sqlstr some_runes no_create no_drop =
    subst (λ (s : Runes). Begins s (query_exec_type prefix sqlstr).0) (join-split prefix)
      (elim (Bool-cases (among (split_words prefix).0 query_map)) [
        | inl query ↦
            rw (query_exec_type, ≢→same prefix [] some_runes, query)
              (query-Begins (split_words prefix).0 (split_words prefix).1 sqlstr)
        | inr no! ↦
            let (_, ws, counted, is) = query_exec_type-split prefix sqlstr some_runes no! in
            exec-Begins (split_words prefix).0 (split_words prefix).1 _ (
              subst
                (λ (vs : List Runes).
                  IsExecType (split_words prefix).0 ((split_words prefix).0 ∷ vs)
                    (query_exec_type prefix sqlstr).0)
                (Counts-all _ _ _ no_create no_drop counted) is)
      ])
