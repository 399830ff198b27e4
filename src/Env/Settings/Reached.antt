-- ===== src/Env/Settings/Reached.antt =====
-- The print settings that calls of Pset and Ptoggle reach, and what either does there.
use usql.Base.{ℕ, ◌≡◌, refl, ap, Bool, true, false, ◌&&◌, List, [], ◌∷◌, arith, Runes, among, Table}
use mathlib.Core.Path.{subst}
use usql.Env.Parse.{formats}
use usql.Env.Settings.{
  kind, Changed, pset, ptoggle, Setting, put_all, initial_settings, initial_pvars,
}
use usql.Env.Settings.Sound.{
  allowed, IsSound, IsFine, fine, refused, put-IsSound, pset-IsFine, ptoggle-IsFine,
}

-- Every setting of a list has a value of its kind.
are_allowed : List Setting → Bool
unfolding kind
are_allowed [] = true
are_allowed (s ∷ ss) = allowed (kind s.name) s.value && are_allowed ss

both : (a b : Bool) → (a && b) ≡ true → (a ≡ true) × (b ≡ true)
both a b h = (ground (arith, h), ground (arith, h))

put_all-IsSound : (ss : List Setting) → are_allowed ss ≡ true → IsSound (put_all ss)
unfolding are_allowed
put_all-IsSound [] good k v is = absurd (ground (arith, is))
put_all-IsSound (s ∷ ss) good k v is =
    let (now, rest) = both (allowed (kind s.name) s.value) (are_allowed ss) good in
    put-IsSound (put_all ss) s.name s.value (put_all-IsSound ss rest) now k v is

-- The settings behind calls of Pset and Ptoggle. Ptoggle is given no format, or a known one, to toggle with.
pub data Reached (to_lower : ℕ → ℕ) : Table → Type 0 where
  initial : (locale : Runes) (has_pager : Bool) → Reached to_lower (initial_pvars locale has_pager)
  set :
      {t t' : Table} (name value v : Runes)
      → Reached to_lower t
      → pset to_lower t name value ≡ Changed.returned t' v
      → Reached to_lower t'
  toggle :
      {t t' : Table} (name extra v : Runes)
      → Reached to_lower t
      → among extra ([] ∷ formats) ≡ true
      → ptoggle t name extra ≡ Changed.returned t' v
      → Reached to_lower t'

settings_of : Table → Changed → Table
settings_of d (Changed.returned t v) = t
settings_of d (Changed.failed t e) = t
settings_of d Changed.panicked = d

fine-IsSound :
    (t : Table) (name v : Runes) (t' : Table) (o : Changed)
    → IsFine t name o
    → o ≡ Changed.returned t' v
    → IsSound t'
unfolding settings_of
fine-IsSound t name v t' o (fine u w sound here others) is =
    subst IsSound (ap (settings_of u) is) sound
fine-IsSound t name v t' o (refused e) is = absurd (ground (arith, is))

pub Reached-IsSound : {to_lower : ℕ → ℕ} {t : Table} → Reached to_lower t → IsSound t
Reached-IsSound (initial locale true) =
    put_all-IsSound (initial_settings locale true) (unfold are_allowed in refl)
Reached-IsSound (initial locale false) =
    put_all-IsSound (initial_settings locale false) (unfold are_allowed in refl)
Reached-IsSound {to_lower} (set {t} {t'} name value v s is) =
    fine-IsSound t name v t' _ (pset-IsFine to_lower t name value (Reached-IsSound s)) is
Reached-IsSound (toggle {t} {t'} name extra v s good is) =
    fine-IsSound t name v t' _ (ptoggle-IsFine t name (Reached-IsSound s) extra good) is

-- In settings that calls of Pset and Ptoggle reached from the initial ones, neither of them panics: each
-- returns the value that the setting then has, all others being as before and every setting having a value of
-- its kind, or an error, with nothing changed. Ptoggle is given no format, or a known one, to toggle with.
pub Reached-IsFine :
    (to_lower : ℕ → ℕ) (t : Table) (name value extra : Runes)
    → Reached to_lower t
    → among extra ([] ∷ formats) ≡ true
    → IsFine t name (pset to_lower t name value) × IsFine t name (ptoggle t name extra)
Reached-IsFine to_lower t name value extra s good = (
  pset-IsFine to_lower t name value (Reached-IsSound s),
  ptoggle-IsFine t name (Reached-IsSound s) extra good,
)
