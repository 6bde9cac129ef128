-- ===== src/Pipeline.antt =====
-- crates/cli/src/main.rs: the parse stage and the store stage of `ingest`.
-- A channel hands over its messages in order, so a stage is a loop over their list. Logging, the
-- pause for the backpressure experiment and the task handles are left out. `none` is the panic of
-- `build_schedule`.
pub mod Parse
pub mod Flush
pub mod Stage
pub mod Snapshots
pub mod Parsed
pub mod Invariant
pub mod Tasks
use tenso.Prelude.{
  ℕ, ◌+◌, String, Bool, Option, none, some, List, [], ◌∷◌, ◌++◌, map, length, if◌then◌else◌, leb,
  text_eq,
}
use tenso.Prelude.Int.{ℤ}
use tenso.Prelude.Maps.{get, insert}
use tenso.Types.{DecodedTransaction, DecodedBlock, AccountLock}
use tenso.Fetch.{FetchOutcome}
use tenso.Contention.{TxLocks, ScheduleResult, build_schedule}
use tenso.Coalesce.{TokenBalanceRow}
use tenso.Ohlcv.{TokenDelta, TxSnapshot}
use tenso.Storage.{
  Result, ok, err, Conn, Db, TransactionRow, AccountLockRow, SlotBatchRow, ◌>>=◌, ◌>>◌, done,
  replace_slots_batch, write_schedule_steps, upsert_ingestion_status,
}

pub record ParsedBlock : Type 0 where
  pub slot : ℕ
  pub block_time : Option ℤ
  pub transactions : List TransactionRow
  pub locks : List AccountLockRow
  pub token_changes : List TokenBalanceRow
  pub signatures : List String
  pub schedule : ScheduleResult

pub data ParsedOutcome : Type 0 where
  ingested : ParsedBlock → ParsedOutcome
  skipped : ℕ → ParsedOutcome
  failed : ℕ → String → ParsedOutcome

unfoldable pub parsed_slot : ParsedOutcome → ℕ
parsed_slot (ParsedOutcome.ingested block) = block.slot
parsed_slot (ParsedOutcome.skipped slot) = slot
parsed_slot (ParsedOutcome.failed slot error) = slot

abbrev pub transaction_row : DecodedTransaction → TransactionRow
transaction_row t = (t.signature, t.failed, t.program_ids, none)

abbrev pub lock_rows_of : DecodedTransaction → List AccountLockRow
lock_rows_of t = map (λ l. (t.signature, l.account, l.is_writable)) t.locks

abbrev pub change_rows_of : DecodedTransaction → List TokenBalanceRow
change_rows_of t =
    map (λ d. (t.signature, d.mint, d.pre_amount, d.post_amount, d.decimals)) t.token_deltas

unfoldable pub all_lock_rows : List DecodedTransaction → List AccountLockRow
all_lock_rows [] = []
all_lock_rows (t ∷ ts) = lock_rows_of t ++ all_lock_rows ts

-- .filter(|t| !t.failed).flat_map(..)
unfoldable pub all_change_rows : List DecodedTransaction → List TokenBalanceRow
all_change_rows [] = []
all_change_rows (t ∷ ts) =
    let rest = all_change_rows ts in if t.failed then rest else change_rows_of t ++ rest

abbrev pub tx_locks : DecodedTransaction → TxLocks
tx_locks t = record {
  signature = t.signature;
  program_ids = t.program_ids;
  locks = map (λ l. record { account = l.account; is_writable = l.is_writable }) t.locks;
}

unfoldable pub parse_block : DecodedBlock → Option ParsedBlock
parse_block block = elim (build_schedule (map tx_locks block.transactions)) [
  | none ↦ none
  | some schedule ↦ some (record {
    slot = block.slot;
    block_time = block.block_time;
    transactions = map transaction_row block.transactions;
    locks = all_lock_rows block.transactions;
    token_changes = all_change_rows block.transactions;
    signatures = map (λ t. t.signature) block.transactions;
    schedule = schedule;
  })
]

unfoldable pub parse_outcome : FetchOutcome → Option ParsedOutcome
parse_outcome (FetchOutcome.skipped slot) = some (ParsedOutcome.skipped slot)
parse_outcome (FetchOutcome.failed slot error) = some (ParsedOutcome.failed slot error)
parse_outcome (FetchOutcome.ingested block) = elim (parse_block block) [
  | none ↦ none
  | some b ↦ some (ParsedOutcome.ingested b)
]

abbrev pub slot_row : ParsedBlock → SlotBatchRow
slot_row b = record {
  slot = b.slot;
  block_time = b.block_time;
  transactions = b.transactions;
  locks = b.locks;
  token_changes = b.token_changes;
}

-- One row of `token_balance_changes`, as the candle pass reads it back.
pub record BalanceChangeRow : Type 0 where
  pub tx_signature : String
  pub slot : ℕ
  pub block_time : Option ℤ
  pub mint : String
  pub pre_amount : ℕ
  pub post_amount : ℕ
  pub decimals : ℕ

abbrev pub token_delta : BalanceChangeRow → TokenDelta
token_delta r = record {
  mint = r.mint;
  pre_amount = r.pre_amount;
  post_amount = r.post_amount;
  decimals = r.decimals;
}

abbrev pub snapshot_or : String → ℤ → Option TxSnapshot → TxSnapshot
snapshot_or signature block_time none = record {
  signature = signature;
  block_time = block_time;
  token_deltas = [];
}
snapshot_or signature block_time (some tx) = tx

abbrev pub add_delta : TokenDelta → TxSnapshot → TxSnapshot
add_delta d tx = record tx { token_deltas = tx.token_deltas ++ d ∷ [] }

-- The loop over the rows, with `by_sig`.
unfoldable pub group_rows :
    List BalanceChangeRow → List (String × TxSnapshot) → List (String × TxSnapshot)
group_rows [] by_sig = by_sig
group_rows (r ∷ rows) by_sig = elim r.block_time [
  | none ↦ group_rows rows by_sig
  | some t ↦ group_rows rows (
      insert r.tx_signature
        (add_delta (token_delta r) (snapshot_or r.tx_signature t (get r.tx_signature by_sig)))
        by_sig)
]

-- `hash_order` is the order in which `into_values` walks the map.
unfoldable pub snapshots_from_balance_rows :
    (hash_order : List (String × TxSnapshot) → List (String × TxSnapshot))
    → List BalanceChangeRow
    → List TxSnapshot
snapshots_from_balance_rows hash_order rows = map (λ e. e.1) (hash_order (group_rows rows []))

-- The store stage.
pub record StoreState : Type 0 where
  pub conn : Conn
  pub pending_batch : List ParsedBlock
  pub ingested : ℕ
  pub ingested_txs : ℕ
  pub skipped : ℕ
  pub failed : ℕ

module _ (fault : ℕ → Bool) (to_json : List String → String) where
  unfoldable pub write_all_steps : List ParsedBlock → Db (Unit {0})
  write_all_steps [] = done
  write_all_steps (b ∷ blocks) = do
    write_schedule_steps fault b.signatures b.schedule
    write_all_steps blocks

  unfoldable pub flush_parsed_batch : List ParsedBlock → Db (Unit {0})
  flush_parsed_batch blocks = do
    replace_slots_batch fault to_json (map slot_row blocks)
    write_all_steps blocks

  -- The match on the outcome: what `?` returns, and the state.
  unfoldable pub store_outcome : ParsedOutcome → StoreState → Result (Unit {0}) × StoreState
  store_outcome (ParsedOutcome.ingested block) s =
      let (r, c) = upsert_ingestion_status fault block.slot "ingested" none s.conn in
      elim r [
        | err e ↦ (err e, record s { conn = c })
        | ok u ↦ (
          ok tt,
          record s {
            conn = c;
            ingested_txs = s.ingested_txs + length block.transactions;
            pending_batch = s.pending_batch ++ block ∷ [];
            ingested = s.ingested + 1;
          },
        )
      ]
  store_outcome (ParsedOutcome.skipped slot) s =
      let (r, c) = upsert_ingestion_status fault slot "skipped" none s.conn in
      elim r [
        | err e ↦ (err e, record s { conn = c })
        | ok u ↦ (ok tt, record s { conn = c; skipped = s.skipped + 1 })
      ]
  store_outcome (ParsedOutcome.failed slot error) s =
      let (r, c) = upsert_ingestion_status fault slot "failed" (some error) s.conn in
      elim r [
        | err e ↦ (err e, record s { conn = c })
        | ok u ↦ (ok tt, record s { conn = c; failed = s.failed + 1 })
      ]

  -- The flush in the course of the run: its error is logged and dropped.
  unfoldable pub flush_full : ℕ → StoreState → StoreState
  flush_full batch_size s =
      if leb batch_size (length s.pending_batch)
      then record s { conn = (flush_parsed_batch s.pending_batch s.conn).1; pending_batch = [] }
      else s

  unfoldable pub store_loop : ℕ → List ParsedOutcome → StoreState → Result (Unit {0}) × StoreState
  store_loop batch_size [] s = (ok tt, s)
  store_loop batch_size (p ∷ parsed) s =
      let (r, s') = store_outcome p s in
      elim r [
        | err e ↦ (err e, s')
        | ok u ↦ store_loop batch_size parsed (flush_full batch_size s')
      ]

  -- The flush after the loop: its error is returned.
  unfoldable pub flush_rest : StoreState → Result (Unit {0}) × StoreState
  flush_rest s = elim s.pending_batch [
    | [] ↦ (ok tt, s)
    | b ∷ bs ↦
        let (r, c) = flush_parsed_batch s.pending_batch s.conn in
        (r, record s { conn = c; pending_batch = [] })
  ]

  unfoldable pub store_stage : ℕ → List ParsedOutcome → StoreState → Result (Unit {0}) × StoreState
  store_stage batch_size parsed s =
      let (r, s') = store_loop batch_size parsed s in
      elim r [ err e ↦ (err e, s') | ok u ↦ flush_rest s' ]
