-- ===== src/Pipeline/Tasks/Order.antt =====
-- At every moment of a run of the three tasks of crates/cli/src/main.rs, errors included: what the
-- store task has received, what is on its way, and what is lost.
use tenso.Prelude.{ℕ, ◌≤◌, ◌≡◌, String, Bool, none, some, List, [], ◌++◌, map, length}
use tenso.Fetch.{FetchOutcome}
use tenso.Pipeline.{ParsedOutcome, StoreState, store_loop}
use tenso.Pipeline.Parsed.{parsed}
use tenso.Pipeline.Tasks.{Tasks, pipeline_capacity}
use tenso.Pipeline.Tasks.Finish.{pending}
use tenso.Storage.{Result, ok}

-- No channel holds more than its capacity.
abbrev pub Bounded : Tasks → Type 0
Bounded s =
    (length s.fetch_channel ≤ pipeline_capacity) × (length s.parse_channel ≤ pipeline_capacity)

module _ (fault : ℕ → Bool) (to_json : List String → String) (batch_size : ℕ) where
  abbrev loop : List ParsedOutcome → StoreState → Result (Unit {0}) × StoreState
  loop = store_loop fault to_json batch_size

  module _ (outcomes : List FetchOutcome) (st : StoreState) where
    -- What the store task has received, in order, and what it has not.
    pub record Orderly (s : Tasks) : Type 0 where
      pub received : List ParsedOutcome
      pub unreceived : List ParsedOutcome
      pub all_there : received ++ unreceived ≡ map parsed outcomes
      pub running :
          s.store_result ≡ none → (unreceived ≡ pending s) × (loop received st ≡ (ok tt, s.store))
      pub succeeded : s.store_result ≡ some (ok tt) → unreceived ≡ []
