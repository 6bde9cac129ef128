-- ===== src/Tests/Routes.antt =====
-- Requests to the API: on a sound lock, and after a worker panicked.
use tenso.Prelude.{
  ℕ, ◌≡◌, refl, Bool, true, false, some, List, [], ◌∷◌, map, arith, ℕ_discrete, ite,
}
use tenso.Storage.{ok}
use tenso.Archive.{upsert_candles, select_candles}
use tenso.Api.{Status, Request, Body, AppState, accept, interval_of, handle, serve}
use tenso.Api.Errors.{refusal, serve-poisoned}
use tenso.Api.Served.{handle-upsert_candles}
use tenso.Tests.Slots.{no_fault}
use tenso.Tests.Trades.{whole}
use tenso.Tests.Archives.{kept, swapped, two_candles}

abbrev requests : List Request
requests =
    Request.get_health
    ∷ Request.get_contention 7 9
    ∷ Request.get_ohlcv "MINT" "2m"
    ∷ Request.get_ohlcv "MINT" "5m"
    ∷ Request.get_tokens
    ∷ []

-- The worker that starts at the third statement panics.
abbrev third : ℕ → Bool
third n = ite (ℕ_discrete n 2) true false

abbrev sound : AppState whole
sound = record { poisoned = false; database = swapped }

abbrev broken : AppState whole
broken = record { poisoned = true; database = swapped }

statuses :
    map (λ r. r.status) (serve whole no_fault third kept kept requests sound).0
    ≡ Status.status_ok ∷ Status.status_ok ∷ Status.bad_request ∷ Status.internal_server_error
      ∷ Status.internal_server_error ∷ []
unfolding serve handle tenso.Api.run_db ℕ_discrete tenso.Archive.Queries.query_contention_summary
    interval_of tenso.Prelude.text_discrete
statuses = refl

serve-poisoned_example :
    serve whole no_fault third kept kept requests broken ≡ (map (refusal whole) requests, broken)
serve-poisoned_example = serve-poisoned whole no_fault third kept kept requests broken refl

one_minute : interval_of "1m" ≡ some 60
unfolding interval_of tenso.Prelude.text_discrete
one_minute = refl

upserted : (upsert_candles whole no_fault "MINT" 60 two_candles swapped).0 ≡ ok tt
unfolding upsert_candles
upserted = refl

none_yet : select_candles whole ("MINT", 60) swapped.candles ≡ []
unfolding select_candles
none_yet = refl

handle-upsert_candles_example :
    (handle whole no_fault no_fault kept kept (Request.get_ohlcv "MINT" "1m") (record {
      poisoned = false;
      database = (upsert_candles whole no_fault "MINT" 60 two_candles swapped).1;
    })).0
    ≡ accept whole (Body.candles two_candles)
handle-upsert_candles_example =
    handle-upsert_candles whole no_fault no_fault kept kept "MINT" "1m" 60 two_candles swapped
      one_minute ((omega arith, tt), (tt, tt)) none_yet upserted refl refl
