-- ===== src/Base/Keys.antt =====
-- Texts compared, and tables keyed by texts.
use Prim.Native.Nat.{ℕ}
use mathlib.Core.Path.{◌≡◌, refl}
use mathlib.Core.Logic.{◌≢◌, inl, inr}
use mathlib.Core.Bool.{Bool, true, false, ◌||◌}
use mathlib.Core.Option.{Option, none, some}
use mathlib.Core.List.{List, [], ◌∷◌}
use native.Mathlib.Omega.{arith}
use usql.Base.Tests.{◌==◌, ==_refl, ==_iff, if◌then◌else◌, Bool-cases}
use usql.Base.Lists.{same}

pub same_refl : (s : List ℕ) → same s s ≡ true
same_refl [] = refl
same_refl (c ∷ s) = rw (==_refl c, same_refl s) refl

pub same→≡ : (s t : List ℕ) → same s t ≡ true → s ≡ t
same→≡ [] [] h = refl
same→≡ [] (d ∷ t) h = absurd (ground arith)
same→≡ (c ∷ s) [] h = absurd (ground arith)
same→≡ (c ∷ s) (d ∷ t) h = elim (Bool-cases (c == d)) [
  | inl e ↦ let f : c ≡ d = (==_iff c d).0 e in let g = same→≡ s t (rw e at h) in cc
  | inr e ↦ absurd (ground (arith, rw e at h))
]

pub ≢→same : (s t : List ℕ) → s ≢ t → same s t ≡ false
≢→same s t h = elim (Bool-cases (same s t)) [ inl e ↦ absurd (h (same→≡ s t e)) | inr e ↦ e ]

-- Whether a text is one of a list.
abbrev pub among : List ℕ → List (List ℕ) → Bool
among s [] = false
among s (t ∷ ts) = same s t || among s ts

-- A Go map from texts to texts: what stands at a key, if anything does.
abbrev pub Table : Type 0
Table = List ℕ → Option (List ℕ)

abbrev pub no_entries : Table
no_entries k = none

abbrev pub put : List ℕ → List ℕ → Table → Table
put name value t k = if same k name then some value else t k

abbrev pub delete : List ℕ → Table → Table
delete name t k = if same k name then none else t k

-- `t[name]`, which is empty where the key is missing.
abbrev pub value_of : Table → List ℕ → List ℕ
value_of t name = elim (t name) [ none ↦ [] | some value ↦ value ]

pub put_same : (name value : List ℕ) (t : Table) → put name value t name ≡ some value
put_same name value t = rw (same_refl name) refl

pub put_other : (name value k : List ℕ) (t : Table) → k ≢ name → put name value t k ≡ t k
put_other name value k t h = rw (≢→same k name h) refl
