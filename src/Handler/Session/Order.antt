-- ===== src/Handler/Session/Order.antt =====
-- The calls of a session come in order.
use mathlib.Core.Path.{subst}
use mathlib.Core.Option
use usql.Base.{ap, ◌≡◌, refl, sym, Bool, true, false, Option, none, some, List, [], ◌∷◌}
use usql.Failure.{Error}
use usql.Handler.Session.{
  Call, began, committed, rolled_back, ran, closed, Database, Session, Result, begin_on, begin_with,
  begin_tx, commit_with, commit, rollback_with, rollback, close_with, close, undo, ended, run_with,
  execute_with, execute, wrapped,
}

-- Calls in order, the last one first, with the transaction that they leave open: one transaction at a time is begun, and is
-- ended once; a statement runs in the open transaction; the connection is closed with none open.
pub data IsOrdered {T : Type 0} : List (Call T) → Option T → Type 0 where
  at_start : IsOrdered [] none
  on_begin : {l : List (Call T)} (t : T) → IsOrdered l none → IsOrdered (began t ∷ l) (some t)
  on_commit : {l : List (Call T)} (t : T) → IsOrdered l (some t) → IsOrdered (committed t ∷ l) none
  on_rollback :
      {l : List (Call T)} (t : T) → IsOrdered l (some t) → IsOrdered (rolled_back t ∷ l) none
  on_run : {l : List (Call T)} (o : Option T) → IsOrdered l o → IsOrdered (ran o ∷ l) o
  on_close : {l : List (Call T)} → IsOrdered l none → IsOrdered (closed ∷ l) none

module _ {D T : Type 0} (w : Database D T) where
  abbrev pub InOrder : Session D T → Type 0
  InOrder s = IsOrdered s.calls s.tx

  at_tx : (s : Session D T) (p : Option T) → s.tx ≡ p → InOrder s → IsOrdered s.calls p
  at_tx s p e ok = subst (λ (q : Option T). IsOrdered s.calls q) e ok

  begin_with-InOrder :
      (s : Session D T) (o : Option D) (p : Option T)
      → s.tx ≡ p
      → InOrder s
      → InOrder (begin_with w s o p).session
  unfolding begin_with begin_on
  begin_with-InOrder s none p e ok = ok
  begin_with-InOrder s (some d) (some t) e ok = ok
  begin_with-InOrder s (some d) none e ok = begun (w.begin_tx d)
    where
      begun : (o : Option T) → InOrder (begin_on w s d o).session
      begun none = at_tx s none e ok
      begun (some t) = on_begin t (at_tx s none e ok)

  commit_with-InOrder :
      (s : Session D T) (o : Option D) (p : Option T)
      → s.tx ≡ p
      → InOrder s
      → InOrder (commit_with w s o p).session
  unfolding commit_with
  commit_with-InOrder s none p e ok = ok
  commit_with-InOrder s (some d) none e ok = ok
  commit_with-InOrder s (some d) (some t) e ok = on_commit t (at_tx s (some t) e ok)

  rollback_with-InOrder :
      (s : Session D T) (o : Option D) (p : Option T)
      → s.tx ≡ p
      → InOrder s
      → InOrder (rollback_with w s o p).session
  unfolding rollback_with
  rollback_with-InOrder s none p e ok = ok
  rollback_with-InOrder s (some d) none e ok = ok
  rollback_with-InOrder s (some d) (some t) e ok = on_rollback t (at_tx s (some t) e ok)

  close_with-InOrder :
      (s : Session D T) (o : Option D) (p : Option T)
      → s.tx ≡ p
      → InOrder s
      → InOrder (close_with w s o p).session
  unfolding close_with
  close_with-InOrder s o (some t) e ok = ok
  close_with-InOrder s none none e ok = ok
  close_with-InOrder s (some d) none e ok =
      subst (λ (q : Option T). IsOrdered (closed ∷ s.calls) q) (sym e)
        (on_close (at_tx s none e ok))

  undo-InOrder : (s : Session D T) (p : Option T) → s.tx ≡ p → InOrder s → InOrder (undo w s p)
  unfolding undo
  undo-InOrder s none e ok = ok
  undo-InOrder s (some t) e ok = on_rollback t (at_tx s (some t) e ok)

  ended-InOrder :
      (force : Bool) (s : Session D T) (o : Option Error)
      → InOrder s
      → InOrder (ended w force s o).session
  unfolding ended commit
  ended-InOrder true s (some e) ok = undo-InOrder s s.tx refl ok
  ended-InOrder false s (some e) ok = ok
  ended-InOrder true s none ok = commit_with-InOrder s s.db s.tx refl ok
  ended-InOrder false s none ok = ok

  run_with-InOrder :
      (force : Bool) (d : D) (s : Session D T) (o : Option Error)
      → InOrder s
      → InOrder (run_with w force d (record { session = s; err = o })).session
  unfolding run_with
  run_with-InOrder force d s (some e) ok = ok
  run_with-InOrder force d s none ok =
      ended-InOrder force (record s { calls = ran s.tx ∷ s.calls }) (w.run_on d s.tx)
        (on_run s.tx ok)

  execute_with-InOrder :
      (force : Bool) (s : Session D T) (o : Option D) (p : Option Error)
      → InOrder s
      → InOrder (execute_with w force s o p).session
  unfolding execute_with begin_tx
  execute_with-InOrder force s none p ok = ok
  execute_with-InOrder force s (some d) (some e) ok = ok
  execute_with-InOrder true s (some d) none ok =
      let r = begin_with w s s.db s.tx in
      run_with-InOrder true d r.session r.err (begin_with-InOrder s s.db s.tx refl ok)
  execute_with-InOrder false s (some d) none ok = run_with-InOrder false d s none ok

-- The sessions reached from a connection just opened, by operations that may fail. The database answers each
-- operation in its own way, whatever it answered before.
pub data Reached {D T : Type 0} : Session D T → Type 0 where
  opened : (d : D) → Reached (record { db = some d; tx = none; calls = [] })
  on_begin_tx : {s : Session D T} (w : Database D T) → Reached s → Reached (begin_tx w s).session
  on_commit_tx : {s : Session D T} (w : Database D T) → Reached s → Reached (commit w s).session
  on_rollback_tx : {s : Session D T} (w : Database D T) → Reached s → Reached (rollback w s).session
  on_close_db : {s : Session D T} (w : Database D T) → Reached s → Reached (close w s).session
  on_execute :
      {s : Session D T} (w : Database D T) (force : Bool)
      → Reached s
      → Reached (execute w force s).session

-- In a session of BeginTx, Commit, Rollback, Close and Execute from a connection just opened, whatever the
-- database answers each of them, the calls to the database come in order: one transaction at a time is begun
-- and is ended once, every statement runs in the open transaction, if there is one, the connection is not
-- closed in a transaction, and the transaction that the handler holds is the one left open.
pub Reached-IsOrdered : {D T : Type 0} {s : Session D T} → Reached s → IsOrdered s.calls s.tx
unfolding begin_tx commit rollback close execute
Reached-IsOrdered (opened d) = at_start
Reached-IsOrdered (on_begin_tx {s} w r) =
    begin_with-InOrder w s s.db s.tx refl (Reached-IsOrdered r)
Reached-IsOrdered (on_commit_tx {s} w r) =
    commit_with-InOrder w s s.db s.tx refl (Reached-IsOrdered r)
Reached-IsOrdered (on_rollback_tx {s} w r) =
    rollback_with-InOrder w s s.db s.tx refl (Reached-IsOrdered r)
Reached-IsOrdered (on_close_db {s} w r) =
    close_with-InOrder w s s.db s.tx refl (Reached-IsOrdered r)
Reached-IsOrdered (on_execute {s} w force r) =
    execute_with-InOrder w force s s.db w.process (Reached-IsOrdered r)

module _ {D T : Type 0} (w : Database D T) (d : D) (t : T) (l : List (Call T)) where
  abbrev pub after : List (Call T) → Option Error → Result D T
  after calls e = record { session = record { db = some d; tx = none; calls = calls }; err = e }

  -- What is left when the statement has run: the commit of its transaction, or the rollback.
  abbrev pub forced_result : Option Error → Result D T
  forced_result none =
      after (committed t ∷ ran (some t) ∷ began t ∷ l) (Option.map w.wrap (w.commit_tx t))
  forced_result (some e) = after (rolled_back t ∷ ran (some t) ∷ began t ∷ l) (some (w.wrap e))

  -- `Execute` once the transaction has begun, by the statement's error.
  ended-forced :
      (e : Option Error)
      → ended w true (record { db = some d; tx = some t; calls = ran (some t) ∷ began t ∷ l }) e
        ≡ forced_result e
  unfolding ended undo commit commit_with
  ended-forced (some e) = refl
  ended-forced none = ap (after _) (mapped (w.commit_tx t))
    where
      mapped : (o : Option Error) → wrapped w o ≡ Option.map w.wrap o
      mapped none = refl
      mapped (some e) = refl

  -- A statement executed with a forced transaction, with none open, runs in a transaction of its own: this is
  -- committed if the statement succeeds, and the result is that of the commit, and it is rolled back if the
  -- statement fails, and the result is the statement's error. Either way no transaction is left open. The
  -- statement is processed and the transaction begun without an error.
  pub execute-forced :
      w.process ≡ none
      → w.begin_tx d ≡ some t
      → execute w true (record { db = some d; tx = none; calls = l })
        ≡ forced_result (w.run_on d (some t))
  unfolding execute execute_with begin_tx begin_with begin_on run_with
  execute-forced processed begun = rw (processed, begun) (ended-forced (w.run_on d (some t)))
