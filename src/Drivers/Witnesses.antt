-- ===== src/Drivers/Witnesses.antt =====
-- The theorems about QueryExecType at concrete prefixes, and about the texts of errors at an error of PostgreSQL.
use usql.Base.{◌≡◌, ◌≢◌, refl, false, [], ◌∷◌, List, map, Runes, codes, ℕ, arith}
use usql.Base.{Option, none, some}
use usql.Drivers.Wrapped.{DriverError, NamedDriver, error_text, trim_right, shown, with_code}
use usql.Drivers.Wrapped.Once.{trimmed, named, error_text-once}
use usql.Stmt.Rune.{is_space}
use usql.Drivers.Kind.{query_exec_type, split_words}
use usql.Drivers.Kind.Counted.{Counts}
use usql.Drivers.Kind.Longest.{IsExecType, query_exec_type-IsExecType}
use usql.Drivers.Kind.Query.{Begins, query_exec_type-Begins}

some_runes : (c : ℕ) (s : Runes) → c ∷ s ≢ []
some_runes c s e = absurd (ground (arith, e))

abbrev view : Runes
view = codes "CREATE OR REPLACE VIEW"

abbrev or_replace : List Runes
or_replace = map codes ("OR" ∷ "REPLACE" ∷ "VIEW" ∷ [])

query_exec_type-IsExecType_example :
    ((query_exec_type view []).1 ≡ false)
    × (ws : List Runes) × Counts (codes "CREATE") or_replace ws
    × IsExecType (codes "CREATE") (codes "CREATE" ∷ ws) (query_exec_type view []).0
query_exec_type-IsExecType_example =
    query_exec_type-IsExecType (codes "CREATE") or_replace []
      (refl, (refl, (refl, (refl, (refl, (refl, tt))))))
      (
        (refl, (refl, tt)),
        (
          (refl, (refl, (refl, (refl, (refl, (refl, (refl, tt))))))),
          ((refl, (refl, (refl, (refl, tt)))), tt),
        ),
      )
      (some_runes _ _) refl

abbrev insert : Runes
insert = codes "INSERT INTO T"

query_exec_type-Begins_example : Begins insert (query_exec_type insert []).0
unfolding split_words
query_exec_type-Begins_example = query_exec_type-Begins insert [] (some_runes _ _) refl refl

abbrev texts : ℕ → Runes
texts n = codes "pq: no such table"

abbrev pq : Runes → Option NamedDriver
pq d = some (record { name = codes "pq"; err = none })

error_text-once_example :
    error_text texts pq (DriverError.wrapped (codes "postgres") (DriverError.plain 0))
    ≡ codes "pq: no such table"
unfolding error_text trim_right is_space shown with_code
error_text-once_example =
    error_text-once texts pq (codes "postgres") (DriverError.plain 0) b'p' (codes "q")
      (codes "no such table") refl refl (trimmed (codes "no such tabl") b'e' refl refl refl)
      (λ t e. absurd (ground (arith, e))) named
