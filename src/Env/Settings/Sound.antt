-- ===== src/Env/Settings/Sound.antt =====
-- The print settings stay among the values that Ptoggle knows, and neither Pset nor Ptoggle panics.
use usql.Base.{
  ℕ, ◌≡◌, ◌≢◌, refl, sym, Bool, true, false, ◌⊎◌, inl, inr, ◌||◌, ◌&&◌, not, if_rule, Option, none,
  some, List, [], ◌∷◌, arith, Runes, codes, same, among, Table, put, same→≡, put_same, put_other,
  Bool-cases, Option-cases,
}
use mathlib.Core.Path.{subst}
use mathlib.Core.Option.{some-injective}
use usql.Failure.{Error, unknown_format_field}
use usql.Env.Parse.{on, off, formats, line_styles, border_styles}
use usql.Env.Parse.Words.{parse_bool-among, parse_keyword_bool-among, matching-among}
use usql.Env.Settings.{
  Kind, kind, Changed, stored, pset_kind, pset, toggled, toggled_format, ptoggle_kind, ptoggle,
}

-- The values of a setting of a kind.
abbrev pub allowed : Kind → Runes → Bool
allowed Kind.number v = true
allowed Kind.pager v = among v (on ∷ codes "always" ∷ off ∷ [])
allowed Kind.expanded v = among v (on ∷ codes "auto" ∷ off ∷ [])
allowed Kind.switch v = among v (on ∷ off ∷ [])
allowed Kind.format v = among v formats
allowed Kind.line_style v = among v line_styles
allowed Kind.text v = true
allowed Kind.cleared v = true
allowed Kind.border v = among v border_styles
allowed Kind.unknown v = false

-- Every setting has a kind and a value of that kind.
abbrev pub IsSound : Table → Type 0
IsSound t = (k v : Runes) → t k ≡ some v → allowed (kind k) v ≡ true

-- The call ended without a panic: a value returned stands in sound settings, all others being as before, and an error
-- changes nothing.
pub data IsFine (t : Table) (name : Runes) : Changed → Type 0 where
  fine :
      (t' : Table) (v : Runes)
      → IsSound t'
      → t' name ≡ some v
      → ((k : Runes) → k ≢ name → t' k ≡ t k)
      → IsFine t name (Changed.returned t' v)
  refused : (e : Error) → IsFine t name (Changed.failed t e)

pub put-IsSound :
    (t : Table) (name v : Runes) → IsSound t → allowed (kind name) v ≡ true → IsSound (put name v t)
put-IsSound t name v ok good k w is = elim (Bool-cases (same k name)) [
  | inl here ↦
      subst (λ (n : Runes). allowed (kind n) w ≡ true) (sym (same→≡ k name here))
        (subst (λ (x : Runes). allowed (kind name) x ≡ true) (some-injective v w (rw here at is))
          good)
  | inr away ↦ ok k w (rw away at is)
]

put-IsFine :
    (t : Table) (name v : Runes)
    → IsSound t
    → allowed (kind name) v ≡ true
    → IsFine t name (Changed.returned (put name v t) v)
put-IsFine t name v ok good =
    fine (put name v t) v (put-IsSound t name v ok good) (put_same name v t)
      (λ k h. put_other name v k t h)

stored-IsFine :
    (e : Error) (t : Table) (name : Runes) (o : Option Runes)
    → IsSound t
    → ((v : Runes) → o ≡ some v → allowed (kind name) v ≡ true)
    → IsFine t name (stored e t name o)
unfolding stored
stored-IsFine e t name none ok good = refused e
stored-IsFine e t name (some v) ok good = put-IsFine t name v ok (good v refl)

module _ (to_lower : ℕ → ℕ) (t : Table) (name value : Runes) (ok : IsSound t) where
  pset_kind-IsFine :
      (m : Kind)
      → kind name ≡ m
      → m ≢ Kind.unknown
      → IsFine t name (pset_kind to_lower m t name value)
  unfolding pset_kind
  pset_kind-IsFine Kind.number is known = put-IsFine t name _ ok (rw is refl)
  pset_kind-IsFine Kind.pager is known =
      stored-IsFine _ t name _ ok
        (λ v e. rw is (parse_keyword_bool-among to_lower value v (codes "always") e))
  pset_kind-IsFine Kind.expanded is known =
      stored-IsFine _ t name _ ok
        (λ v e. rw is (parse_keyword_bool-among to_lower value v (codes "auto") e))
  pset_kind-IsFine Kind.switch is known =
      stored-IsFine _ t name _ ok (λ v e. rw is (parse_bool-among to_lower value v e))
  pset_kind-IsFine Kind.format is known =
      stored-IsFine _ t name _ ok (λ v e. rw is (matching-among formats value v e))
  pset_kind-IsFine Kind.line_style is known =
      stored-IsFine _ t name _ ok (λ v e. rw is (matching-among line_styles value v e))
  pset_kind-IsFine Kind.text is known = put-IsFine t name _ ok (rw is refl)
  pset_kind-IsFine Kind.cleared is known = put-IsFine t name _ ok (rw is refl)
  pset_kind-IsFine Kind.border is known =
      stored-IsFine _ t name _ ok (λ v e. rw is (matching-among border_styles value v e))
  pset_kind-IsFine Kind.unknown is known = absurd (known refl)

  -- A setting that is there is of a kind.
  has_kind : (v : Runes) → t name ≡ some v → kind name ≢ Kind.unknown
  has_kind v is none! = absurd (ground (arith, rw none! at (ok name v is)))

  pub pset-IsFine : IsFine t name (pset to_lower t name value)
  unfolding pset
  pset-IsFine = elim (Option-cases (t name)) [
    | inl missing ↦ rw (missing, pset) (refused unknown_format_field)
    | inr (v, is) ↦ rw (is, pset) (pset_kind-IsFine (kind name) refl (has_kind v is))
  ]

or_right : (a b : Bool) → a ≡ false → (a || b) ≡ true → b ≡ true
or_right a b no! h = ground (arith, no!, h)

not_empty : (a b : Bool) → (not a && b) ≡ true → a ≡ false
not_empty a b h = ground (arith, h)

module _ (t : Table) (name : Runes) (ok : IsSound t) where
  same-IsFine : (v : Runes) → t name ≡ some v → IsFine t name (Changed.returned t v)
  same-IsFine v is = fine t v ok is (λ k h. refl)

  toggled-IsFine :
      (also : List Runes) (v : Runes)
      → allowed (kind name) on ≡ true
      → allowed (kind name) off ≡ true
      → (among v (on ∷ also) ≡ true) ⊎ (same v off ≡ true)
      → IsFine t name (toggled also t name v)
  unfolding toggled
  toggled-IsFine also v can_on can_off now = elim (Bool-cases (among v (on ∷ also))) [
    | inl yes! ↦ rw yes! (put-IsFine t name off ok can_off)
    | inr no! ↦ elim now [
      | inl yes! ↦ absurd (ground (arith, yes!, no!))
      | inr is_off ↦ rw (no!, is_off) (put-IsFine t name on ok can_on)
    ]
  ]

  toggled_format-among :
      (extra v : Runes)
      → among extra ([] ∷ formats) ≡ true
      → among (toggled_format extra v) formats ≡ true
  unfolding toggled_format
  toggled_format-among extra v good =
      let P : Runes → Type 0 = λ w. among w formats ≡ true in
      if_rule P (not (same extra []) && not (same v extra))
        (λ c. or_right (same extra []) _ (not_empty (same extra []) _ c) good)
        (λ _. if_rule P (same v (codes "aligned")) (λ _. refl) (λ _. refl))

  ptoggle_kind-IsFine :
      (m : Kind) (extra v : Runes)
      → kind name ≡ m
      → t name ≡ some v
      → among extra ([] ∷ formats) ≡ true
      → allowed m v ≡ true
      → IsFine t name (ptoggle_kind m t name extra v)
  unfolding ptoggle_kind
  ptoggle_kind-IsFine Kind.number extra v m is good now = same-IsFine v is
  ptoggle_kind-IsFine Kind.pager extra v m is good now =
      toggled-IsFine (codes "always" ∷ []) v (rw m refl) (rw m refl) (ground (arith, now))
  ptoggle_kind-IsFine Kind.expanded extra v m is good now =
      toggled-IsFine (codes "auto" ∷ []) v (rw m refl) (rw m refl) (ground (arith, now))
  ptoggle_kind-IsFine Kind.switch extra v m is good now =
      toggled-IsFine [] v (rw m refl) (rw m refl) (ground (arith, now))
  ptoggle_kind-IsFine Kind.format extra v m is good now =
      put-IsFine t name (toggled_format extra v) ok (rw m (toggled_format-among extra v good))
  ptoggle_kind-IsFine Kind.line_style extra v m is good now = same-IsFine v is
  ptoggle_kind-IsFine Kind.text extra v m is good now = same-IsFine v is
  ptoggle_kind-IsFine Kind.cleared extra v m is good now = put-IsFine t name [] ok (rw m refl)
  ptoggle_kind-IsFine Kind.border extra v m is good now = same-IsFine v is
  ptoggle_kind-IsFine Kind.unknown extra v m is good now = absurd (ground (arith, now))

  pub ptoggle-IsFine :
      (extra : Runes) → among extra ([] ∷ formats) ≡ true → IsFine t name (ptoggle t name extra)
  unfolding ptoggle
  ptoggle-IsFine extra good = elim (Option-cases (t name)) [
    | inl missing ↦ rw (missing, ptoggle) (refused unknown_format_field)
    | inr (v, is) ↦
        rw (is, ptoggle) (ptoggle_kind-IsFine (kind name) extra v refl is good (ok name v is))
  ]
