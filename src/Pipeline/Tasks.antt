-- ===== src/Pipeline/Tasks.antt =====
-- crates/cli/src/main.rs: the three tasks of `run_ingest` to their ends, errors included, joined by
-- two bounded channels. A task that sends into a full channel waits, and takes no turn. A task
-- that ends drops its ends of the channels: the next one then finds its channel closed once it is
-- empty, and the one before can send no more. `sending` are the outcomes that the fetch task has yet
-- to send, in the order of its callback. The pause of the store stage is a wait, and no step.
pub mod Finish
pub mod Outcome
pub mod Order
use tenso.Prelude.{
  ℕ, ◌+◌, ◌<◌, ◌≡◌, ◌⊎◌, String, Bool, Option, none, some, List, [], ◌∷◌, ◌++◌, length,
}
use tenso.Fetch.{FetchOutcome}
use tenso.Pipeline.{ParsedOutcome, StoreState, parse_outcome, store_outcome, flush_full, flush_rest}
use tenso.Storage.{StorageError, Result, ok, err}

-- PIPELINE_CAPACITY
abbrev pub pipeline_capacity : ℕ
pipeline_capacity = 2

pub data ParseTask : Type 0 where
  receiving : ParseTask
  holding : ParsedOutcome → ParseTask
  -- Ok(())
  parse_ok : ParseTask
  -- bail!("store receiver dropped")
  parse_bailed : ParseTask

pub record Tasks : Type 0 where
  pub sending : List FetchOutcome
  pub fetch_channel : List FetchOutcome
  pub parse_task : ParseTask
  pub parse_channel : List ParsedOutcome
  pub store : StoreState
  -- what the store task has returned
  pub store_result : Option (Result (Unit {0}))

abbrev pub spawn : List FetchOutcome → StoreState → Tasks
spawn outcomes st = record {
  sending = outcomes;
  fetch_channel = [];
  parse_task = ParseTask.receiving;
  parse_channel = [];
  store = st;
  store_result = none;
}

-- The parse task holds the receiver of the first channel until it ends.
abbrev pub HasEnded : ParseTask → Type 0
HasEnded p = (p ≡ ParseTask.parse_ok) ⊎ (p ≡ ParseTask.parse_bailed)

abbrev pub IsRunning : ParseTask → Type 0
IsRunning p = (p ≡ ParseTask.receiving) ⊎ ((o : ParsedOutcome) × (p ≡ ParseTask.holding o))

module _ (fault : ℕ → Bool) (to_json : List String → String) (batch_size : ℕ) where
  pub data Turn (s : Tasks) : Tasks → Type 0 where
    -- tx.send(outcome).await
    fetch_sends :
        (o : FetchOutcome) (rest : List FetchOutcome)
        → s.sending ≡ o ∷ rest
        → IsRunning s.parse_task
        → length s.fetch_channel < pipeline_capacity
        → Turn s (record s { sending = rest; fetch_channel = s.fetch_channel ++ o ∷ [] })
    -- is_err(): warn!("parse receiver dropped")
    fetch_warns :
        (o : FetchOutcome) (rest : List FetchOutcome)
        → s.sending ≡ o ∷ rest
        → HasEnded s.parse_task
        → Turn s (record s { sending = rest })
    -- while let Some(outcome) = fetch_rx.recv().await
    parse_receives :
        (o : FetchOutcome) (rest : List FetchOutcome) (p : ParsedOutcome)
        → s.parse_task ≡ ParseTask.receiving
        → s.fetch_channel ≡ o ∷ rest
        → parse_outcome o ≡ some p
        → Turn s (record s { fetch_channel = rest; parse_task = ParseTask.holding p })
    -- the loop ends: the channel is empty, and its sender dropped
    parse_ends :
        s.parse_task ≡ ParseTask.receiving
        → s.fetch_channel ≡ []
        → s.sending ≡ []
        → Turn s (record s { parse_task = ParseTask.parse_ok })
    -- parse_tx.send(parsed).await
    parse_sends :
        (p : ParsedOutcome)
        → s.parse_task ≡ ParseTask.holding p
        → s.store_result ≡ none
        → length s.parse_channel < pipeline_capacity
        → Turn s (record s {
          parse_task = ParseTask.receiving;
          parse_channel = s.parse_channel ++ p ∷ [];
        })
    -- is_err(): the store task has dropped its receiver
    parse_bails :
        (p : ParsedOutcome) (r : Result (Unit {0}))
        → s.parse_task ≡ ParseTask.holding p
        → s.store_result ≡ some r
        → Turn s (record s { parse_task = ParseTask.parse_bailed })
    -- while let Some(parsed) = parse_rx.recv().await, and the round of the loop
    store_receives :
        (p : ParsedOutcome) (rest : List ParsedOutcome)
        → s.parse_channel ≡ p ∷ rest
        → s.store_result ≡ none
        → (store_outcome fault to_json p s.store).0 ≡ ok tt
        → Turn s (record s {
          parse_channel = rest;
          store = flush_full fault to_json batch_size (store_outcome fault to_json p s.store).1;
        })
    -- the `?` of a round
    store_fails :
        (p : ParsedOutcome) (rest : List ParsedOutcome) (e : StorageError)
        → s.parse_channel ≡ p ∷ rest
        → s.store_result ≡ none
        → (store_outcome fault to_json p s.store).0 ≡ err e
        → Turn s (record s {
          parse_channel = rest;
          store = (store_outcome fault to_json p s.store).1;
          store_result = some (err e);
        })
    -- the loop ends, and the last batch is flushed
    store_ends :
        HasEnded s.parse_task
        → s.parse_channel ≡ []
        → s.store_result ≡ none
        → Turn s (record s {
          store = (flush_rest fault to_json s.store).1;
          store_result = some (flush_rest fault to_json s.store).0;
        })

  pub data Run (s : Tasks) : Tasks → Type 0 where
    here : Run s s
    next : {t u : Tasks} → Run s t → Turn t u → Run s u
