-- ===== src/Metacmd/Transact.antt =====
-- metacmd/cmds.go: the process of \begin, \commit, \rollback and \abort.
use usql.Base.{
  Bool, true, false, ◌||◌, Option, none, some, [], ◌∷◌, if◌then◌else◌, Runes, codes, same,
}
use usql.Failure.{Error, invalid_isolation_level}
use usql.Metacmd.Args.{Args, Taken, get_value, get_optional}

pub data Isolation : Type 0 where
  level_default level_read_uncommitted level_read_committed level_write_committed : Isolation
  level_repeatable_read level_snapshot level_serializable level_linearizable : Isolation

-- sql.TxOptions
pub record TxOptions : Type 0 where
  pub isolation : Isolation
  pub read_only : Bool

-- What the process does: a call of the handler, whose error it returns, or an error of its own.
pub data Transaction : Type 0 where
  begins : Option TxOptions → Transaction
  commits rolls_back : Transaction
  refuses : Error → Transaction

-- The switch on the isolation level, in lower case.
unfoldable pub isolation_of : Runes → Option Isolation
isolation_of n =
    if same n (codes "default") || same n []
    then some Isolation.level_default
    else if same n (codes "read-uncommitted")
    then some Isolation.level_read_uncommitted
    else if same n (codes "read-committed")
    then some Isolation.level_read_committed
    else if same n (codes "write-committed")
    then some Isolation.level_write_committed
    else if same n (codes "repeatable-read")
    then some Isolation.level_repeatable_read
    else if same n (codes "snapshot")
    then some Isolation.level_snapshot
    else if same n (codes "serializable")
    then some Isolation.level_serializable
    else if same n (codes "linearizable")
    then some Isolation.level_linearizable
    else none

at_level : Bool → Option Isolation → Transaction
at_level read_only none = Transaction.refuses invalid_isolation_level
at_level read_only (some i) =
    Transaction.begins (some (record { isolation = i; read_only = read_only }))

-- `invalid_option` is the error of another option than -read-only, and `to_lower` is strings.ToLower.
module _ (to_lower : Runes → Runes) (invalid_option : Runes → Error) where
  unfoldable pub begin_at : Bool → Runes → Transaction
  unfolding at_level isolation_of
  begin_at true n = at_level true (isolation_of (to_lower n))
  begin_at false [] = Transaction.begins none
  begin_at false (c ∷ s) = at_level false (isolation_of (to_lower (c ∷ s)))

  begin_read_only : Taken Runes → Transaction
  unfolding begin_at
  begin_read_only (Taken.untaken e) = Transaction.refuses e
  begin_read_only (Taken.taken n args) = begin_at true n

  -- The error of the first parameter is not looked at.
  unfoldable pub begin_with_params : Taken (Bool × Runes) → Transaction
  unfolding begin_at begin_read_only
  begin_with_params (Taken.untaken e) = begin_at false []
  begin_with_params (Taken.taken (true, n) args) =
      if same n (codes "read-only")
      then begin_read_only (get_value args)
      else Transaction.refuses (invalid_option n)
  begin_with_params (Taken.taken (false, n) args) = begin_at false n

  unfoldable pub transact_process : Runes → Args → Transaction
  unfolding begin_with_params
  transact_process name args =
      if same name (codes "commit")
      then Transaction.commits
      else if same name (codes "rollback") || same name (codes "abort")
      then Transaction.rolls_back
      else begin_with_params (get_optional args)
