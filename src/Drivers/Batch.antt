-- ===== src/Drivers/Batch.antt =====
-- drivers/drivers.go: BatchAsTransaction and IsBatchQueryPrefix.
use usql.Base.{Bool, true, false, Option, none, some, [], if◌then◌else◌, Runes, Table}
use usql.Drivers.Kind.{query_exec_type}

-- What a driver says of batches: whether they need a transaction, and, if it has any, the prefixes that open one with
-- the prefixes that close it.
pub record Driver : Type 0 where
  pub transaction : Bool
  pub prefixes : Option Table

-- The driver of a URL is `none` if it is not registered.
unfoldable pub batch_as_transaction : Option Driver → Bool
batch_as_transaction none = false
batch_as_transaction (some d) = d.transaction

-- The type of a statement, the closing prefix, and whether it opens a batch.
pub record BatchPrefix : Type 0 where
  pub typ : Runes
  pub end : Runes
  pub opens : Bool

closing : Runes → Option Runes → BatchPrefix
closing typ none = record { typ = typ; end = []; opens = false }
closing typ (some end) = record { typ = typ; end = end; opens = true }

batch_prefixes : Option Driver → Option Table
batch_prefixes none = none
batch_prefixes (some d) = d.prefixes

looked_up : Runes → Option Table → BatchPrefix
unfolding closing
looked_up typ none = closing typ none
looked_up typ (some t) = closing typ (t typ)

unfoldable pub is_batch_query_prefix : Option Driver → Runes → BatchPrefix
unfolding query_exec_type looked_up batch_prefixes
is_batch_query_prefix d prefix =
    let (typ, q) = query_exec_type prefix [] in looked_up typ (if q then none else batch_prefixes d)
