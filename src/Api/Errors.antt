-- ===== src/Api/Errors.antt =====
-- The errors of the API: when there are none, and how they last.
use tenso.Prelude.{
  ℕ, ◌+◌, ◌≡◌, refl, String, Bool, true, false, none, some, List, [], ◌∷◌, map, Option-cases, inl,
  inr,
}
use tenso.Floats.{Floats}
use tenso.Storage.{Result, ok, err}
use tenso.Archive.{Database, Action, query, query_ohlcv, sort_candles, select_candles}
use tenso.Archive.Queries.{
  ContentionSummary, next_step, max_stored_step, top_accounts, token_option, token_groups,
  query_contention_summary, query_tokens,
}
use tenso.Api.{
  Status, ApiError, Request, Body, Response, AppState, accept, refuse, respond, interval_of, run_db,
  handle, serve,
}

module _ (f : Floats) where
  -- What a request is answered, whatever the table holds, once the lock is poisoned.
  abbrev pub refusal : Request → Response f
  refusal Request.get_health = accept f Body.healthy
  refusal Request.get_tokens = refuse f ApiError.mutex_poisoned
  refusal (Request.get_contention from_slot to_slot) = refuse f ApiError.mutex_poisoned
  refusal (Request.get_ohlcv mint interval) = elim (interval_of interval) [
    | none ↦ record { status = Status.bad_request; body = Body.text ApiError.bad_interval }
    | some interval_sec ↦ refuse f ApiError.mutex_poisoned
  ]

  -- The status of a request that meets no failure.
  abbrev pub quiet_status : Request → Status
  quiet_status (Request.get_ohlcv mint interval) = elim (interval_of interval) [
    | none ↦ Status.bad_request
    | some interval_sec ↦ Status.status_ok
  ]
  quiet_status r = Status.status_ok

  module _ (fault crash : ℕ → Bool) (account_order : List (String × ℕ) → List (String × ℕ))
      (mint_order : List (String × (ℕ × ℕ)) → List (String × (ℕ × ℕ))) where
    run_db-poisoned :
        {A : Type 0} (json : A → Body f) (read : Action f A) (s : AppState f)
        → s.poisoned ≡ true
        → run_db f fault crash json read s ≡ (refuse f ApiError.mutex_poisoned, s)
    unfolding run_db
    run_db-poisoned json read s p = rw p refl

    handle-poisoned :
        (r : Request) (s : AppState f)
        → s.poisoned ≡ true
        → handle f fault crash account_order mint_order r s ≡ (refusal r, s)
    unfolding handle
    handle-poisoned Request.get_health s p = refl
    handle-poisoned Request.get_tokens s p = run_db-poisoned _ _ s p
    handle-poisoned (Request.get_contention from_slot to_slot) s p = run_db-poisoned _ _ s p
    handle-poisoned (Request.get_ohlcv mint interval) s p =
        elim (Option-cases (interval_of interval)) [
          | inl e ↦ rw (handle, refusal, e) refl
          | inr (i, e) ↦ rw (handle, refusal, e) (run_db-poisoned _ _ s p)
        ]

    -- Once the lock is poisoned, every later request is answered without touching the database:
    -- a health check still with 200, a series of an unknown interval with 400, and everything
    -- else with 500.
    pub serve-poisoned :
        (requests : List Request) (s : AppState f)
        → s.poisoned ≡ true
        → serve f fault crash account_order mint_order requests s ≡ (map refusal requests, s)
    unfolding serve
    serve-poisoned [] s p = refl
    serve-poisoned (r ∷ requests) s p = rw (handle-poisoned r s p, serve-poisoned requests s p) refl

    module _ (quiet : (n : ℕ) → fault n ≡ false) (calm : (n : ℕ) → crash n ≡ false) where
      -- A handler's answer is good, and leaves the lock sound.
      abbrev Good : Status → Response f × AppState f → Type 0
      Good status x = (x.0.status ≡ status) × (x.1.poisoned ≡ false)

      run_db-quiet :
          {A : Type 0} (json : A → Body f) (read : Action f A) (s : AppState f) (a : A)
          → s.poisoned ≡ false
          → (read s.database).0 ≡ ok a
          → Good Status.status_ok (run_db f fault crash json read s)
      unfolding run_db
      run_db-quiet json read s a p h =
          rw (p, calm s.database.conn.clock) (respond-ok json (read s.database) a h)
        where
          respond-ok :
              {A : Type 0} (json : A → Body f) (x : Result A × Database f) (a : A)
              → x.0 ≡ ok a
              → Good Status.status_ok (respond f json x)
          respond-ok json (ok b, d) a h = (refl, refl)
          respond-ok json (err e, d) a h = absurd (cc (h))

      query-quiet :
          {A : Type 0} (value : Database f → A) (d : Database f)
          → (query f fault (λ d. ok (value d)) d).0 ≡ ok (value d)
      query-quiet value d = rw (quiet d.conn.clock) refl

      contention-quiet :
          (from_slot to_slot : ℕ) (d : Database f)
          → (a : ContentionSummary) × ((query_contention_summary f fault account_order from_slot
                to_slot d).0
              ≡ ok a)
      unfolding query_contention_summary
      contention-quiet from_slot to_slot d = (
        record {
          depth = next_step (max_stored_step from_slot to_slot d.conn.tables.transactions);
          top_conflicting_accounts =
              top_accounts account_order from_slot to_slot d.conn.tables.account_locks;
        },
        rw (quiet d.conn.clock, quiet (d.conn.clock + 1)) refl,
      )

      handle-quiet :
          (r : Request) (s : AppState f)
          → s.poisoned ≡ false
          → Good (quiet_status r) (handle f fault crash account_order mint_order r s)
      unfolding handle query_tokens query_contention_summary query_ohlcv
      handle-quiet Request.get_health s p = (refl, p)
      handle-quiet Request.get_tokens s p =
          run_db-quiet _ _ s _ p
            (query-quiet (λ d. map token_option (token_groups f mint_order d.candles)) s.database)
      handle-quiet (Request.get_contention from_slot to_slot) s p =
          run_db-quiet _ _ s _ p (contention-quiet from_slot to_slot s.database).1
      handle-quiet (Request.get_ohlcv mint interval) s p =
          elim (Option-cases (interval_of interval)) [
            | inl e ↦ rw (handle, quiet_status, e) (refl, p)
            | inr (i, e) ↦
                rw (handle, quiet_status, e)
                  (run_db-quiet _ _ s _ p (
                    query-quiet (λ d. sort_candles f (select_candles f (mint, i) d.candles))
                      s.database))
          ]

      -- If neither the engine nor a worker fails and the lock is sound, then it stays sound over
      -- any requests, and each is answered with 200, but a series of an unknown interval with 400.
      pub serve-quiet :
          (requests : List Request) (s : AppState f)
          → s.poisoned ≡ false
          → (map (λ x. x.status) (serve f fault crash account_order mint_order requests s).0
              ≡ map quiet_status requests)
            × ((serve f fault crash account_order mint_order requests s).1.poisoned ≡ false)
      unfolding serve
      serve-quiet [] s p = (refl, p)
      serve-quiet (r ∷ requests) s p =
          let (good, sound) = handle-quiet r s p in
          let (later, still) =
            serve-quiet requests (handle f fault crash account_order mint_order r s).1 sound in
          ((λ i. good i ∷ later i), still)
