-- ===== src/Ingest/Completes.antt =====
-- How `run_ingest` ends: with its report where the store stage succeeds and the engine does not
-- fail, and with an error where the store stage fails.
use mathlib.Core.Path.{subst}
use tenso.Prelude.{
  ℕ, ◌≡◌, refl, ap, ◌∙◌, String, Bool, false, Option, some, List, map, inl, inr, ◌⊎◌,
}
use tenso.Floats.{Floats}
use tenso.Fetch.{FetchOutcome}
use tenso.Ohlcv.{TxSnapshot, Candle}
use tenso.Storage.{StorageError, Result, ok, err, BalanceDbRow}
use tenso.Pipeline.{StoreState, store_stage}
use tenso.Pipeline.Invariant.{store_stage-ConsistentConn}
use tenso.Pipeline.Parsed.{parsed}
use tenso.Pipeline.Tasks.{ParseTask, Tasks, spawn, Run}
use tenso.Pipeline.Tasks.Finish.{HasFinished}
use tenso.Pipeline.Tasks.Outcome.{Tasks-store_stage}
use tenso.Archive.{CandleDbRow, Database}
use tenso.Archive.Invariant.{
  ConsistentDatabase, build_and_store_candles-ConsistentDatabase, read_range-fits, AddsNoRow,
}
use tenso.Archive.Pass.{build_and_store_candles}
use tenso.Archive.Pass.Ends.{build_and_store_candles-quiet}
use tenso.Archive.Queries.{DbStats, query_db_stats}
use tenso.Archive.Queries.Stats.{stats_of, query_db_stats-ok}
use tenso.Api.{AppState}
use tenso.Ingest.{
  IngestError, Anyhow, Report, to_slot_of, parse_joined, blocking, after_store, joined, Step, ◌>>=◌,
  report, store_candles, read_stats,
}

module _ (f : Floats) where
  abbrev sound : Database f → AppState f
  sound d = record { poisoned = false; database = d }

  blocking-ok :
      {A : Type 0} (panicked : IngestError) (run : Database f → Option (Result A × Database f))
      (d d' : Database f) (a : A)
      → run d ≡ some (ok a, d')
      → blocking f panicked run (sound d) ≡ (Anyhow.value a, sound d')
  unfolding blocking
  blocking-ok panicked run d d' a h = rw (h, blocking) refl

  bind-value :
      {A B : Type 0} (m : Step f A) (k : A → Step f B) (s s' : AppState f) (a : A)
      → m s ≡ (Anyhow.value a, s')
      → (m >>= k) s ≡ k a s'
  bind-value m k s s' a h = rw (◌>>=◌, ap (λ x. x.0) h, ap (λ x. x.1) h) refl

module _ (f : Floats) (fault : ℕ → Bool)
    (mint_order : ℕ → List (String × List (Candle f)) → List (String × List (Candle f)))
    (order : List BalanceDbRow → List BalanceDbRow)
    (hash_order : List (String × TxSnapshot) → List (String × TxSnapshot))
    (start_slot count : ℕ) where
  abbrev pass : Database f → Option (Result (Unit {0}) × Database f)
  pass =
      build_and_store_candles f fault mint_order order hash_order start_slot
        (to_slot_of start_slot count)

  module _ (quiet : (n : ℕ) → fault n ≡ false) (adds_none : AddsNoRow order) where
    pass-succeeds :
        (d : Database f)
        → ConsistentDatabase f d
        → (d' : Database f) × (pass d ≡ some (ok tt, d')) × ConsistentDatabase f d'
    pass-succeeds d w =
        let (rows, fits) =
          read_range-fits start_slot (to_slot_of start_slot count)
            (order d.conn.tables.token_balance_changes)
            (adds_none _ d.conn.tables.token_balance_changes w.0.0.amounts) in
        let (d', ran) =
          build_and_store_candles-quiet f fault mint_order order hash_order start_slot
            (to_slot_of start_slot count) quiet rows d fits in
        let (y, ran', w') =
          build_and_store_candles-ConsistentDatabase f fault mint_order order hash_order start_slot
            (to_slot_of start_slot count) d w in
        let same : y ≡ (ok tt, d') = cc (ran, ran') in
        (d', ran, subst (λ y. ConsistentDatabase f y.1) same w')

    after_store-completes :
        (st : StoreState) (d : Database f)
        → ConsistentDatabase f d
        → (d' : Database f) × (clock : ℕ) × (pass d ≡ some (ok tt, d'))
          × ConsistentDatabase f d'
          × (after_store f fault mint_order order hash_order start_slot count st (sound f d) ≡ (
            Anyhow.value (report st (stats_of f d')),
            sound f (record d' { conn = record d'.conn { clock = clock } }),
          ))
    unfolding after_store
    after_store-completes st d w =
        let finish : DbStats → Step f Report = λ stats s. (Anyhow.value (report st stats), s) in
        let (d', ran, w') = pass-succeeds d w in
        let (clock, counts) = query_db_stats-ok f fault quiet d' in
        (
          d',
          clock,
          ran,
          w',
          bind-value f (store_candles f fault mint_order order hash_order start_slot count)
                (λ stored. read_stats f fault >>= finish) (sound f d) (sound f d') tt
                (blocking-ok f IngestError.candle_worker_panicked pass d d' tt ran)
              ∙ bind-value f (read_stats f fault) finish (sound f d') _ (stats_of f d') (
                  blocking-ok f IngestError.stats_worker_panicked
                    (λ d. some (query_db_stats f fault d)) d' _ (stats_of f d') (ap some counts)),
        )

  module _ (to_json : List String → String) (batch_size : ℕ) (outcomes : List FetchOutcome)
      (st : StoreState) (candles : List (CandleDbRow f)) where
    -- The database that the store stage leaves.
    abbrev left_by_store : Database f
    left_by_store = record {
      conn = (store_stage fault to_json batch_size (map parsed outcomes) st).1.conn;
      candles = candles;
    }

    -- Let the engine not fail, ORDER BY add no row, the lock be sound, and the database be consistent
    -- at the start.
    -- However the tasks take turns, once all three have ended, and where the store stage succeeds
    -- on the outcomes: `run_ingest` returns its report. The candle pass over the range, begun on
    -- what the store stage left, has succeeded; the database is consistent; the report counts what
    -- the store stage counted, and its statistics are those of the database at the end.
    pub joined-completes :
        {s : Tasks}
        → ((n : ℕ) → fault n ≡ false)
        → AddsNoRow order
        → ConsistentDatabase f (record { conn = st.conn; candles = candles })
        → Run fault to_json batch_size (spawn outcomes st) s
        → HasFinished s
        → (store_stage fault to_json batch_size (map parsed outcomes) st).0 ≡ ok tt
        → let st' = (store_stage fault to_json batch_size (map parsed outcomes) st).1 in
          (d' : Database f) × (clock : ℕ) × (pass left_by_store ≡ some (ok tt, d'))
          × ConsistentDatabase f d'
          × (joined f fault mint_order order hash_order start_slot count candles false s
              ≡ some (
                Anyhow.value (report st' (stats_of f d')),
                sound f (record d' { conn = record d'.conn { clock = clock } }),
              ))
    unfolding joined parse_joined
    joined-completes {s} quiet adds_none w run finished stored =
        let (sent, ended, (r, h)) = finished in
        let (same, parse_end) =
          Tasks-store_stage fault to_json batch_size outcomes st r run finished h in
        let returned : r ≡ ok tt = ap (λ x. x.0) same ∙ stored in
        let state = ap (λ x. x.1) same in
        let parse_succeeded : s.parse_task ≡ ParseTask.parse_ok = elim parse_end [
          | inl e ↦ e
          | inr (e, failed, _) ↦ absurd (cc (failed, returned))
        ] in
        let w' : ConsistentDatabase f left_by_store =
          (store_stage-ConsistentConn fault to_json batch_size (map parsed outcomes) st w.0, w.1) in
        let (d', clock, ran, w'', completes) =
          after_store-completes quiet adds_none
            (store_stage fault to_json batch_size (map parsed outcomes) st).1 left_by_store w' in
        (d', clock, ran, w'', rw (joined, parse_succeeded, h, returned, state) (ap some completes))

    -- However the tasks take turns, once all three have ended, and where the store stage fails on
    -- the outcomes with an error: `run_ingest` returns this error, or, if the parse task found the
    -- store task gone, the error of the parse task in its place; no candle is stored, and the
    -- connection is as the store stage left it.
    pub joined-err :
        {s : Tasks} (poisoned : Bool) (e : StorageError)
        → Run fault to_json batch_size (spawn outcomes st) s
        → HasFinished s
        → (store_stage fault to_json batch_size (map parsed outcomes) st).0 ≡ err e
        → (x : IngestError) × (joined f fault mint_order order hash_order start_slot count candles
              poisoned s
            ≡ some (Anyhow.error x, record { poisoned = poisoned; database = left_by_store }))
          × (((x ≡ IngestError.storage_failed e) × (s.parse_task ≡ ParseTask.parse_ok))
              ⊎ ((x ≡ IngestError.store_receiver_dropped)
                  × (s.parse_task ≡ ParseTask.parse_bailed)))
    unfolding joined parse_joined
    joined-err {s} poisoned e run finished failed =
        let (sent, ended, (r, h)) = finished in
        let (same, parse_end) =
          Tasks-store_stage fault to_json batch_size outcomes st r run finished h in
        let returned : r ≡ err e = ap (λ x. x.0) same ∙ failed in
        let state = ap (λ x. x.1) same in
        elim ended [
          | inl p ↦
              (IngestError.storage_failed e, rw (joined, p, h, returned, state) refl, inl (refl, p))
          | inr p ↦ (IngestError.store_receiver_dropped, rw (joined, p, state) refl, inr (refl, p))
        ]
