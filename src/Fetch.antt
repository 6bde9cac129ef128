-- ===== src/Fetch.antt =====
-- crates/ingest-core/src/block_fetch.rs: the outcome of a slot, and `fetch_one`, which answers it.
-- The wait for the rate limiter comes before the calls: `acquire` is a run of rounds under its lock,
-- of which the last one grants a token, and which need not exist.
pub mod Pool
pub mod Client
use Prim.Native.String.{◌++◌}
use tenso.Prelude.{ℕ, ◌≡◌, refl, String, Option, none, some}
use tenso.Types.{DecodedBlock}
use tenso.Rpc.{
  RpcError, transport, rpc_returned_error, unexpected_shape, slot_skipped, is_transient,
}
use tenso.Retry.{Answer, ok, err, retry_with_backoff, retry_with_backoff_lem}

pub data FetchOutcome : Type 0 where
  ingested : DecodedBlock → FetchOutcome
  skipped : ℕ → FetchOutcome
  failed : ℕ → String → FetchOutcome

-- e.to_string()
abbrev pub display : RpcError → String
display (transport e) = "transport error: " ++ e
display (rpc_returned_error e) = "rpc returned an error: " ++ e
display slot_skipped = "slot was skipped by the leader"
display (unexpected_shape e) = "unexpected response shape: " ++ e

abbrev pub error_outcome : ℕ → RpcError → FetchOutcome
error_outcome slot slot_skipped = skipped slot
error_outcome slot (transport e) = failed slot (display (transport e))
error_outcome slot (rpc_returned_error e) = failed slot (display (rpc_returned_error e))
error_outcome slot (unexpected_shape e) = failed slot (display (unexpected_shape e))

abbrev pub outcome : ℕ → Answer RpcError DecodedBlock → FetchOutcome
outcome slot (ok block) = ingested block
outcome slot (err e) = error_outcome slot e

-- RetryConfig::default().max_retries
abbrev pub default_max_retries : ℕ
default_max_retries = 5

-- limiter.acquire().await: what `acquire` of RateLimiter comes to for a request.
abbrev pub Acquire : Type 0
Acquire = Option (Unit {0})

-- `get_block n` is what the call of number `n` for the slot answers.
unfoldable pub fetch_one :
    Acquire → (get_block : ℕ → Answer RpcError DecodedBlock) → ℕ → Option FetchOutcome
fetch_one none get_block slot = none
fetch_one (some u) get_block slot =
    elim (retry_with_backoff default_max_retries is_transient get_block) [
      | none ↦ none
      | some (answer, calls) ↦ some (outcome slot answer)
    ]

-- `fetch_outcome_slot` of crates/cli/src/main.rs.
unfoldable pub fetch_outcome_slot : FetchOutcome → ℕ
fetch_outcome_slot (ingested block) = block.slot
fetch_outcome_slot (skipped slot) = slot
fetch_outcome_slot (failed slot error) = slot

fetch_outcome_slot-outcome :
    (slot : ℕ) (answer : Answer RpcError DecodedBlock)
    → ((block : DecodedBlock) → answer ≡ ok block → block.slot ≡ slot)
    → fetch_outcome_slot (outcome slot answer) ≡ slot
unfolding fetch_outcome_slot
fetch_outcome_slot-outcome slot (ok block) h = h block refl
fetch_outcome_slot-outcome slot (err (transport e)) h = refl
fetch_outcome_slot-outcome slot (err (rpc_returned_error e)) h = refl
fetch_outcome_slot-outcome slot (err (unexpected_shape e)) h = refl
fetch_outcome_slot-outcome slot (err slot_skipped) h = refl

-- Whatever the calls answer, a fetch that the limiter grants ends with an outcome. Where each block that is answered has
-- the slot that was asked for, the outcome is for that slot.
pub fetch_one_lem :
    (get_block : ℕ → Answer RpcError DecodedBlock) (slot : ℕ)
    → ((n : ℕ) (block : DecodedBlock) → get_block n ≡ ok block → block.slot ≡ slot)
    → (o : FetchOutcome) × (fetch_one (some tt) get_block slot ≡ some o)
      × (fetch_outcome_slot o ≡ slot)
unfolding fetch_one
fetch_one_lem get_block slot h =
    let (last, bound, ran, calls, end) =
      retry_with_backoff_lem default_max_retries is_transient get_block in
    (
      outcome slot (get_block last),
      rw (fetch_one, ran) refl,
      fetch_outcome_slot-outcome slot (get_block last) (h last),
    )
