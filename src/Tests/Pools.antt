-- ===== src/Tests/Pools.antt =====
-- Two slots through the pool, the channels and the store stage: the second is answered first.
use mathlib.Core.List.{Perm}
use tenso.Prelude.{ℕ, ◌≡◌, refl, none, some, [], ◌∷◌, map, arith, ltb, if◌then◌else◌}
use tenso.Types.{DecodedBlock}
use tenso.Rpc.{RpcError, slot_skipped, is_transient}
use tenso.Retry.{Answer, ok, err}
use tenso.Fetch.{FetchOutcome, Acquire, fetch_one, fetch_outcome_slot}
use tenso.Fetch.Pool
use tenso.Fetch.Pool.{slot_range, start}
use tenso.Fetch.Pool.Outcomes.{AnswersSlots, Reach-finished}
use tenso.Pipeline.{ParsedOutcome, parse_outcome}

abbrev pub block_7 : DecodedBlock
block_7 = record { slot = 7; block_time = none; transactions = [] }

-- Slot 8 was skipped, and the others are answered with an empty block.
abbrev pub server : ℕ → ℕ → Answer RpcError DecodedBlock
server slot n = if ltb 7 slot then err slot_skipped else ok (record block_7 { slot = slot })

pub server-AnswersSlots : AnswersSlots server
server-AnswersSlots slot n block h = ground arith

abbrev pub grants : ℕ → Acquire
grants slot = some tt

abbrev pub done : Pool.Pool
done = record {
  slots = [];
  in_flight = [];
  outcomes = FetchOutcome.skipped 8 ∷ FetchOutcome.ingested block_7 ∷ [];
}

pub ran : Pool.Reach grants server (start 7 2 2) done
unfolding start Pool.prime Pool.dispatch slot_range Pool.slots_from fetch_one
    tenso.Retry.retry_with_backoff tenso.Retry.retry_loop is_transient
ran =
    Pool.next (Pool.next Pool.here (Pool.completes (7 ∷ []) [] 8 _ refl refl))
      (Pool.completes [] [] 7 _ refl refl)

Reach-finished_example : Perm (map fetch_outcome_slot done.outcomes) (slot_range 7 2)
Reach-finished_example =
    Reach-finished grants server server-AnswersSlots 7 2 2 (omega arith) ran refl

abbrev pub parsed_7 : ParsedOutcome
parsed_7 = ParsedOutcome.ingested (record {
  slot = 7;
  block_time = none;
  transactions = [];
  locks = [];
  token_changes = [];
  signatures = [];
  schedule = record { steps = []; depth = 0; width_per_step = []; conflicts = [] };
})

pub parse_7 : parse_outcome (FetchOutcome.ingested block_7) ≡ some parsed_7
unfolding parse_outcome tenso.Pipeline.parse_block tenso.Contention.build_schedule
    tenso.Contention.schedule_txs tenso.Pipeline.all_lock_rows tenso.Pipeline.all_change_rows
    tenso.Contention.depth_of tenso.Contention.count_widths
parse_7 = refl
