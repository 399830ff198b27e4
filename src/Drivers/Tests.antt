-- ===== src/Drivers/Tests.antt =====
-- Runs of QueryExecType and of the errors of drivers.
use usql.Base.{◌≡◌, refl, false, Bool, [], Runes, codes}
use usql.Base.{some}
use usql.Stmt.Rune.{is_space}
use usql.Drivers.Wrapped.{DriverError, wrap_err, unwrap, chop}
use usql.Drivers.Kind.{query_exec_type}

typed : Runes → Runes → Runes × Bool
unfolding query_exec_type
typed prefix sqlstr = query_exec_type prefix sqlstr

create_view : typed (codes "CREATE OR REPLACE VIEW V") [] ≡ (codes "CREATE VIEW", false)
unfolding typed
create_view = refl

select_into : typed (codes "SELECT INTO T") [] ≡ (codes "SELECT INTO", false)
unfolding typed
select_into = refl

pragma_set :
    typed (codes "PRAGMA FOREIGN_KEYS") (codes "pragma foreign_keys=1") ≡ (codes "PRAGMA", false)
unfolding typed
pragma_set = refl

unknown_word : typed (codes "FROB X") [] ≡ (codes "FROB", false)
unfolding typed
unknown_word = refl

wrapped_once :
    wrap_err (codes "b") (wrap_err (codes "a") (some (DriverError.plain 1)))
    ≡ some (DriverError.wrapped (codes "a") (DriverError.plain 1))
unfolding wrap_err
wrapped_once = refl

unwrapped :
    unwrap (DriverError.wrapped (codes "a") (DriverError.plain 1)) ≡ some (DriverError.plain 1)
unfolding unwrap
unwrapped = refl

chopped : chop (codes " ql:  no table ") (codes "ql") ≡ codes "no table"
unfolding chop is_space
chopped = refl
