-- ===== src/Env/Variables/Switches.antt =====
-- The variables that hold `on` or `off`, through calls of Set and Unset.
use usql.Base.{ℕ, ◌≡◌, true, Option, some, [], ◌∷◌, Runes, among, Table}
use usql.Env.Parse.{on, off}
use usql.Env.Variables.{switches, set, unset, Environment, initial_vars}
use usql.Stmt.Rune.{Unicode}

-- ON_ERROR_STOP and QUIET, where they are set, are `on` or `off`.
abbrev pub AreSwitched : Table → Type 0
AreSwitched t =
    (k v : Runes) → among k switches ≡ true → t k ≡ some v → among v (on ∷ off ∷ []) ≡ true

-- The variables behind calls of Set and Unset, failed ones included.
pub data Reached ⦃u : Unicode⦄ (to_lower : ℕ → ℕ) : Table → Type 0 where
  initial : (e : Environment) → Reached to_lower (initial_vars e)
  assigned :
      {t : Table} (name value : Runes)
      → Reached to_lower t
      → Reached to_lower (set to_lower t name value).vars
  removed : {t : Table} (name : Runes) → Reached to_lower t → Reached to_lower (unset t name).vars
