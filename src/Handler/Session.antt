-- ===== src/Handler/Session.antt =====
-- handler/handler.go: the connection and the transaction of a session, with BeginTx, Commit, Rollback, Close and Execute.
pub mod Order
use usql.Base.{Bool, true, false, Option, none, some, List, [], ◌∷◌, if◌then◌else◌}
use usql.Failure.{Error, not_connected, previous_transaction_exists, no_previous_transaction_exists}

-- A call to the database: a transaction begun, committed or rolled back, a statement run, in the transaction
-- if there is one, and the connection closed.
pub data Call (T : Type 0) : Type 0 where
  began : T → Call T
  committed : T → Call T
  rolled_back : T → Call T
  ran : Option T → Call T
  closed : Call T

-- What the package `sql` and the drivers answer in one operation, which calls each of them at most once.
-- `begin_tx` gives a transaction or an error.
pub record Database (D T : Type 0) : Type 0 where
  pub begin_tx : D → Option T
  pub begin_error : D → Error
  pub commit_tx : T → Option Error
  pub rollback_tx : T → Option Error
  pub close_db : D → Option Error
  -- `drivers.Process`
  pub process : Option Error
  -- The statement, run by `execSingle`, `execExec`, `execSet` or `execWatch` on the transaction or the connection.
  pub run_on : D → Option T → Option Error
  -- `drivers.WrapErr`
  pub wrap : Error → Error

-- The handler's connection and transaction, and the calls so far, the last one first.
pub record Session (D T : Type 0) : Type 0 where
  pub db : Option D
  pub tx : Option T
  pub calls : List (Call T)

-- A session and the error of the operation that led to it.
pub record Result (D T : Type 0) : Type 0 where
  pub session : Session D T
  pub err : Option Error

module _ {D T : Type 0} (w : Database D T) where
  abbrev fails : Session D T → Error → Result D T
  fails s e = record { session = s; err = some e }

  abbrev wrapped : Option Error → Option Error
  wrapped none = none
  wrapped (some e) = some (w.wrap e)

  begin_on : Session D T → D → Option T → Result D T
  begin_on s d none = record {
    session = record s { tx = none };
    err = some (w.wrap (w.begin_error d));
  }
  begin_on s d (some t) = record {
    session = record s { tx = some t; calls = Call.began t ∷ s.calls };
    err = none;
  }

  begin_with : Session D T → Option D → Option T → Result D T
  unfolding begin_on
  begin_with s none o = fails s not_connected
  begin_with s (some d) (some t) = fails s previous_transaction_exists
  begin_with s (some d) none = begin_on s d (w.begin_tx d)

  unfoldable pub begin_tx : Session D T → Result D T
  unfolding begin_with
  begin_tx s = begin_with s s.db s.tx

  commit_with : Session D T → Option D → Option T → Result D T
  commit_with s none o = fails s not_connected
  commit_with s (some d) none = fails s no_previous_transaction_exists
  commit_with s (some d) (some t) = record {
    session = record s { tx = none; calls = Call.committed t ∷ s.calls };
    err = wrapped (w.commit_tx t);
  }

  unfoldable pub commit : Session D T → Result D T
  unfolding commit_with
  commit s = commit_with s s.db s.tx

  rollback_with : Session D T → Option D → Option T → Result D T
  rollback_with s none o = fails s not_connected
  rollback_with s (some d) none = fails s no_previous_transaction_exists
  rollback_with s (some d) (some t) = record {
    session = record s { tx = none; calls = Call.rolled_back t ∷ s.calls };
    err = wrapped (w.rollback_tx t);
  }

  unfoldable pub rollback : Session D T → Result D T
  unfolding rollback_with
  rollback s = rollback_with s s.db s.tx

  close_with : Session D T → Option D → Option T → Result D T
  close_with s o (some t) = fails s previous_transaction_exists
  close_with s none none = record { session = s; err = none }
  close_with s (some d) none = record {
    session = record s { db = none; calls = Call.closed ∷ s.calls };
    err = wrapped (w.close_db d);
  }

  unfoldable pub close : Session D T → Result D T
  unfolding close_with
  close s = close_with s s.db s.tx

  abbrev ran_in : Session D T → Session D T
  ran_in s = record s { calls = Call.ran s.tx ∷ s.calls }

  -- The deferred rollback of a forced transaction, whose error is dropped.
  undo : Session D T → Option T → Session D T
  undo s none = s
  undo s (some t) = record s { tx = none; calls = Call.rolled_back t ∷ s.calls }

  -- What follows the run of the statement, which ended with the error `e`.
  ended : Bool → Session D T → Option Error → Result D T
  unfolding commit undo
  ended force s (some e) = fails (if force then undo s s.tx else s) (w.wrap e)
  ended force s none = if force then commit s else record { session = s; err = none }

  run_with : Bool → D → Result D T → Result D T
  unfolding ended
  run_with force d r = elim r.err [
    | some e ↦ fails r.session e
    | none ↦ ended force (ran_in r.session) (w.run_on d r.session.tx)
  ]

  execute_with : Bool → Session D T → Option D → Option Error → Result D T
  unfolding begin_tx run_with
  execute_with force s none p = fails s not_connected
  execute_with force s (some d) (some e) = fails s (w.wrap e)
  execute_with force s (some d) none =
      run_with force d (if force then begin_tx s else record { session = s; err = none })

  unfoldable pub execute : Bool → Session D T → Result D T
  unfolding execute_with
  execute force s = execute_with force s s.db w.process
