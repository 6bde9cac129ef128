-- ===== src/Api.antt =====
-- crates/api/src/routes.rs and lib.rs: the requests of the JSON API and their responses.
-- The connection stands behind a `Mutex`, which is poisoned when a worker panics while it holds
-- the lock. `crash` says of which workers that is so, by the count of statements at which they
-- start: a panic can come only from the bindings of the engine. A malformed query string is turned
-- away by axum, before any handler runs.
pub mod Errors
pub mod Served
pub mod Static
use tenso.Prelude.{
  ℕ, String, Bool, true, false, Option, none, some, List, [], ◌∷◌, if◌then◌else◌, ite,
  text_discrete,
}
use tenso.Floats.{Floats}
use tenso.Ohlcv.{Candle}
use tenso.Storage.{StorageError, Result, ok, err}
use tenso.Archive.{Database, Action, query_ohlcv}
use tenso.Archive.Queries.{ContentionSummary, TokenOption, query_contention_summary, query_tokens}

-- StatusCode
pub data Status : Type 0 where
  status_ok bad_request internal_server_error : Status

-- The text of a response that is not `Json`.
pub data ApiError : Type 0 where
  storage_failed : StorageError → ApiError
  mutex_poisoned worker_panicked bad_interval : ApiError

pub data Request : Type 0 where
  get_health get_tokens : Request
  get_contention : ℕ → ℕ → Request
  get_ohlcv : String → String → Request

-- match q.interval.as_str()
unfoldable pub interval_of : String → Option ℕ
interval_of interval =
    ite (text_discrete interval "1m") (some 60) (ite (text_discrete interval "5m") (some 300) none)

module _ (f : Floats) where
  pub data Body : Type 0 where
    healthy : Body
    summary : ContentionSummary → Body
    tokens : List TokenOption → Body
    candles : List (Candle f) → Body
    text : ApiError → Body

  pub record Response : Type 0 where
    pub status : Status
    pub body : Body

  pub record AppState : Type 0 where
    pub poisoned : Bool
    pub database : Database f

  abbrev pub refuse : ApiError → Response
  refuse e = record { status = Status.internal_server_error; body = Body.text e }

  abbrev pub accept : Body → Response
  accept b = record { status = Status.status_ok; body = b }

  -- Ok(value) => Json(value), Err(e) => (INTERNAL_SERVER_ERROR, e)
  abbrev pub respond : {A : Type 0} → (A → Body) → Result A × Database f → Response × AppState
  respond json (ok a, d) = (accept (json a), record { poisoned = false; database = d })
  respond json (err e, d) =
      (refuse (ApiError.storage_failed e), record { poisoned = false; database = d })

  module _ (fault crash : ℕ → Bool) where
    -- `run_db`, and the response that each handler makes of its result.
    unfoldable pub run_db : {A : Type 0} → (A → Body) → Action f A → AppState → Response × AppState
    run_db json read s =
        if s.poisoned
        then (refuse ApiError.mutex_poisoned, s)
        else if crash s.database.conn.clock
        then (
          refuse ApiError.worker_panicked,
          record { poisoned = true; database = (read s.database).1 },
        )
        else respond json (read s.database)

    module _ (account_order : List (String × ℕ) → List (String × ℕ))
        (mint_order : List (String × (ℕ × ℕ)) → List (String × (ℕ × ℕ))) where
      unfoldable pub handle : Request → AppState → Response × AppState
      handle Request.get_health s = (accept Body.healthy, s)
      handle Request.get_tokens s = run_db Body.tokens (query_tokens f fault mint_order) s
      handle (Request.get_contention from_slot to_slot) s =
          run_db Body.summary (query_contention_summary f fault account_order from_slot to_slot) s
      handle (Request.get_ohlcv mint interval) s = elim (interval_of interval) [
        | none ↦ (record { status = Status.bad_request; body = Body.text ApiError.bad_interval }, s)
        | some interval_sec ↦ run_db Body.candles (query_ohlcv f fault mint interval_sec) s
      ]

      -- Requests in the order in which they take the lock.
      unfoldable pub serve : List Request → AppState → List Response × AppState
      serve [] s = ([], s)
      serve (r ∷ requests) s =
          let (response, s') = handle r s in
          let (responses, s'') = serve requests s' in (response ∷ responses, s'')
