-- ===== src/Handler/Tests.antt =====
-- Runs of a session.
use usql.Base.{ℕ, ◌≡◌, refl, false, Option, none, some, [], ◌∷◌}
use usql.Failure.{Error, other}
use usql.Handler.Session.{Database, Session, began, ran, begin_tx, execute}

-- A database whose one transaction is 7, and whose statements fail in it if `bad`.
abbrev database : Option Error → Database ℕ ℕ
database bad = record {
  begin_tx = λ d. some 7;
  begin_error = λ d. other 1;
  commit_tx = λ t. none;
  rollback_tx = λ t. none;
  close_db = λ d. none;
  process = none;
  run_on = λ d o. bad;
  wrap = λ e. e;
}

abbrev start : Session ℕ ℕ
start = record { db = some 0; tx = none; calls = [] }

run_in_transaction :
    (execute (database none) false (begin_tx (database none) start).session).session.calls
    ≡ ran (some 7) ∷ began 7 ∷ []
unfolding execute begin_tx
run_in_transaction = refl
