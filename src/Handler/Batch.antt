-- ===== src/Handler/Batch.antt =====
-- handler/handler.go: how `Run` takes a statement from the buffer, and gathers the statements of a batch.
pub mod Gathering
use usql.Base.{
  ◌≡◌, Bool, true, false, not, ◌&&◌, ◌||◌, Option, none, some, List, [], ◌∷◌, ◌++◌, ◌==◌,
  if◌then◌else◌, Runes, Bytes, codes, same, length, utf8,
}
use usql.Drivers.Batch.{Driver, is_batch_query_prefix, batch_as_transaction}
use usql.Stmt.Buffer.{Stmt, string, raw_string, reset}
use usql.Stmt.Next.{lineend}
use usql.Stmt.Prefix.{find_prefix}
use usql.Stmt.Rune.{Unicode}

-- The fields of the handler that a batch concerns. `u` is `none` for no connection, and holds the driver of the URL.
pub record Handler : Type 0 where
  pub buf : Stmt
  pub last : Runes
  pub last_prefix : Runes
  pub last_raw : Bytes
  pub batch : Bool
  pub batch_end : Runes
  pub u : Option (Option Driver)

-- The errors of a batch.
pub data Refusal : Type 0 where
  existing_batch forced_batch : Refusal

-- How a round of `Run` goes on: with an error, with the next line, or with a statement to execute, its prefix and
-- whether a transaction is forced.
pub data Step : Type 0 where
  refused : Handler → Refusal → Step
  waiting : Handler → Step
  execute : Handler → Runes → Runes → Bool → Step
  panicked : Step

module _ ⦃uc : Unicode⦄ where
  -- `forceBatch` for the statement `last`.
  pub force_batch : Option (Option Driver) → Runes → Bool
  force_batch none last = false
  force_batch (some d) last =
      (is_batch_query_prefix d
        (find_prefix last (record { c_style = true; hash = true; multiline = true }))).opens
      && batch_as_transaction d

  -- Whether `h.last` is executed.
  pub launch : Handler → Step
  unfolding force_batch
  launch h =
      if not h.batch && not (same h.last []) && not (same h.last (codes ";"))
      then Step.execute h h.last_prefix h.last (force_batch h.u h.last)
      else Step.waiting h

  -- `h.last, h.lastPrefix, h.lastRaw = …`, with the raw text if there is one.
  pub take_last : Handler → Option Bytes → Step
  unfolding launch
  take_last h none = Step.panicked
  take_last h (some raw) = launch (record h {
    last = string h.buf;
    last_prefix = h.buf.prefix;
    last_raw = raw;
    buf = reset none h.buf;
  })

  pub flush : Handler → Step
  unfolding take_last launch
  flush h = if h.buf.len == 0 then launch h else take_last h (raw_string h.buf)

  -- What joins a statement to `h.last`.
  lend : Runes → Runes
  lend [] = []
  lend (c ∷ s) = lineend

  -- A statement of the type `typ` added to the batch.
  pub add_last : Handler → Runes → Option Bytes → Step
  unfolding flush lend
  add_last h typ none = Step.panicked
  add_last h typ (some raw) =
      let last = h.last ++ (lend h.last ++ string h.buf) in
      let added : Handler = record h {
        last = last;
        last_prefix = h.buf.prefix;
        last_raw = h.last_raw ++ (lend h.last ++ raw);
        buf = reset none h.buf;
      } in
      if same h.batch_end typ
      then flush (record added { last_prefix = h.batch_end; batch = false; batch_end = [] })
      else Step.waiting added

  -- The switch on the batch; `forced` is `opt.Exec != metacmd.ExecNone`.
  pub gather_in : Bool → Handler → Option (Option Driver) → Step
  unfolding flush add_last
  gather_in forced h none = flush h
  gather_in forced h (some d) =
      let p = is_batch_query_prefix d h.buf.prefix in
      if h.batch && p.opens
      then Step.refused h Refusal.existing_batch
      else if h.batch && not (same p.typ h.batch_end) && forced
      then Step.refused h Refusal.forced_batch
      else if p.opens
      then flush (record h { batch = true; batch_end = p.end })
      else if h.batch
      then add_last h p.typ (raw_string h.buf)
      else flush h

  -- The part of a round that follows the commands; `now` is its variable `execute`.
  unfoldable pub gather : Bool → Bool → Handler → Step
  unfolding gather_in
  gather now forced h =
      if now || h.buf.ready || forced then gather_in forced h h.u else Step.waiting h
