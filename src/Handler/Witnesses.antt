-- ===== src/Handler/Witnesses.antt =====
-- The theorems about batches and transactions at concrete ones.
use usql.Base.{
  ℕ, ◌≡◌, ◌≢◌, refl, true, false, Option, none, some, [], ◌∷◌, arith, Runes, codes, put, no_entries,
}
use usql.Drivers.Batch.{Driver, is_batch_query_prefix}
use usql.Failure.{other}
use usql.Handler.Batch.{Handler, execute, force_batch}
use usql.Handler.Batch.Gathering.{IsStatement, feed, joined, outside, feed-execute}
use usql.Handler.Session.{Database, Session, Result, Call, began, committed, rolled_back, ran}
use usql.Handler.Session
use usql.Handler.Session.Order.{
  IsOrdered, opened, on_execute, Reached-IsOrdered, after, execute-forced,
}
use usql.Stmt.Buffer.{Stmt, zero_stmt, string, raw_string}
use usql.Stmt.Rune.{Unicode, ascii_unicode}

instance abbrev tables : Unicode
tables = ascii_unicode

-- The batches of cassandra.
abbrev cassandra : Option Driver
cassandra = some (record {
  transaction = false;
  prefixes = some (put (codes "BEGIN BATCH") (codes "APPLY BATCH") no_entries);
})

abbrev statement : Runes → Runes → Stmt
statement text prefix = record zero_stmt { buf = some text; len = 1; prefix = prefix; ready = true }

abbrev opening : Stmt
opening = statement (codes "begin batch") (codes "BEGIN BATCH")

abbrev middle : Stmt
middle = statement (codes "insert") (codes "INSERT")

abbrev apply_batch : Stmt
apply_batch = statement (codes "apply batch;") (codes "APPLY BATCH")

opening-IsStatement : IsStatement cassandra opening (codes "BEGIN BATCH") (codes "APPLY BATCH") true
unfolding is_batch_query_prefix raw_string
opening-IsStatement = record { ready = refl; prefix = refl; raw = (_, refl) }

middle-IsStatement : IsStatement cassandra middle (codes "INSERT") [] false
unfolding is_batch_query_prefix raw_string
middle-IsStatement = record { ready = refl; prefix = refl; raw = (_, refl) }

apply_batch-IsStatement : IsStatement cassandra apply_batch (codes "APPLY BATCH") [] false
unfolding is_batch_query_prefix raw_string
apply_batch-IsStatement = record { ready = refl; prefix = refl; raw = (_, refl) }

other_type : codes "INSERT" ≢ codes "APPLY BATCH"
other_type e = absurd (ground (arith, e))

feed-execute_example :
    (h : Handler) × (feed
        (outside cassandra (codes "APPLY BATCH") opening [] [] [])
        (opening ∷ middle ∷ apply_batch ∷ [])
      ≡ execute h
          (codes "APPLY BATCH")
          (joined (codes "begin batch") (middle ∷ apply_batch ∷ []))
          (force_batch (some cassandra) (joined (codes "begin batch") (middle ∷ apply_batch ∷ []))))
    × (h.batch ≡ false)
feed-execute_example =
    feed-execute cassandra (codes "APPLY BATCH") opening b'b' (codes "egin batch") [] [] []
      (codes "BEGIN BATCH") (middle ∷ []) apply_batch (omega arith) (unfold string in refl)
      opening-IsStatement ((codes "INSERT", other_type, middle-IsStatement), tt)
      apply_batch-IsStatement

abbrev database : Database ℕ ℕ
database = record {
  begin_tx = λ d. some 7;
  begin_error = λ d. other 1;
  commit_tx = λ t. none;
  rollback_tx = λ t. none;
  close_db = λ d. none;
  process = none;
  run_on = λ d o. none;
  wrap = λ e. e;
}

abbrev start : Session ℕ ℕ
start = record { db = some 0; tx = none; calls = [] }

-- The same database, when the next statement fails.
abbrev failing : Database ℕ ℕ
failing = record database { begin_tx = λ d. some 8; run_on = λ d o. some (other 2) }

abbrev later : Session ℕ ℕ
later = (Session.execute database true start).session

abbrev last : Session ℕ ℕ
last = (Session.execute failing true later).session

Reached-IsOrdered_example : IsOrdered last.calls last.tx
Reached-IsOrdered_example =
    Reached-IsOrdered (on_execute failing true (on_execute database true (opened 0)))

execute-forced_example :
    Session.execute database true start
    ≡ after database 0 7 [] (committed 7 ∷ ran (some 7) ∷ began 7 ∷ []) none
execute-forced_example = execute-forced database 0 7 [] refl refl
