-- ===== src/Fetch/Pool.antt =====
-- crates/ingest-core/src/block_fetch.rs: `fetch_block_range`, as the steps of its worker pool. The
-- future that completes next is any of those in flight; `server slot n` is what call number `n`
-- for a slot answers, and `grants slot` what `acquire` comes to for its request, `none` if it
-- never returns. The slots wait oldest first: the code holds them in reverse and pops the end.
pub mod Bounds
pub mod Outcomes
pub mod Starved
use tenso.Prelude.{ℕ, zero, suc, ◌+◌, ◌-◌, ◌%◌, ◌^◌, ◌≡◌, some, List, [], ◌∷◌, ◌++◌}
use tenso.Types.{DecodedBlock}
use tenso.Rpc.{RpcError}
use tenso.Retry.{Answer}
use tenso.Fetch.{FetchOutcome, Acquire, fetch_one}

-- `count` slots from one on.
unfoldable pub slots_from : ℕ → ℕ → List ℕ
slots_from start_slot zero = []
slots_from start_slot (suc count) = start_slot ∷ slots_from (suc start_slot) count

-- start_slot..start_slot + count, of u64: the sum wraps around, as in a build without overflow
-- checks, and the range is empty if it ends before its start. (A build with these checks panics.)
unfoldable pub slot_range : ℕ → ℕ → List ℕ
slot_range start_slot count =
    let end = (start_slot + count) % 2 ^ 64 in slots_from start_slot (end - start_slot)

-- `outcomes` are those handed to `on_outcome`, in order.
pub record Pool : Type 0 where
  pub slots : List ℕ
  pub in_flight : List ℕ
  pub outcomes : List FetchOutcome

-- if let Some(slot) = slots.pop() { in_flight.push(..) }
unfoldable pub dispatch : Pool → Pool
dispatch p = elim p.slots [
  | [] ↦ p
  | slot ∷ rest ↦ record p { slots = rest; in_flight = p.in_flight ++ slot ∷ [] }
]

-- The loop that primes the pipeline: `n` more slots fit.
unfoldable pub prime : ℕ → Pool → Pool
prime zero p = p
prime (suc n) p = prime n (dispatch p)

unfoldable pub start : ℕ → ℕ → ℕ → Pool
start start_slot count max_concurrency =
    prime max_concurrency
      (record { slots = slot_range start_slot count; in_flight = []; outcomes = [] })

module _ (grants : ℕ → Acquire) (server : ℕ → ℕ → Answer RpcError DecodedBlock) where
  -- One round of the loop: a future completes, its outcome is handed on, and the next slot goes
  -- out.
  pub data Step (p : Pool) : Pool → Type 0 where
    completes :
        (before after : List ℕ) (slot : ℕ) (o : FetchOutcome)
        → p.in_flight ≡ before ++ slot ∷ after
        → fetch_one (grants slot) (server slot) slot ≡ some o
        → Step p
            (dispatch (record p { in_flight = before ++ after; outcomes = p.outcomes ++ o ∷ [] }))

  pub data Reach (p : Pool) : Pool → Type 0 where
    here : Reach p p
    next : {q r : Pool} → Reach p q → Step q r → Reach p r
