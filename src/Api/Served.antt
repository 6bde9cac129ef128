-- ===== src/Api/Served.antt =====
-- The API reads and never writes, and serves the candles that were stored.
use tenso.Prelude.{
  ℕ, ◌+◌, ◌≡◌, refl, ap, ◌∙◌, String, Bool, false, some, List, [], ◌∷◌, Option-cases, Bool-cases,
  inl, inr,
}
use tenso.Floats.{Floats}
use tenso.Ohlcv.{Candle}
use tenso.Ohlcv.Buckets.{Ascending}
use tenso.Ohlcv.Candles.{starts}
use tenso.Storage.{Result, ok, err}
use tenso.Archive.{Database, Action, select_candles, upsert_candles, query_ohlcv}
use tenso.Archive.Series.{query_ohlcv-upsert_candles}
use tenso.Archive.Queries.{query_contention_summary, query_tokens}
use tenso.Api.{Request, Body, AppState, accept, respond, interval_of, run_db, handle, serve}

module _ (f : Floats) where
  -- The rows are what they were, and so is an open transaction.
  abbrev pub SameRows : Database f → Database f → Type 0
  SameRows d d' =
      (d'.candles ≡ d.candles) × (d'.conn.tables ≡ d.conn.tables) × (d'.conn.saved ≡ d.conn.saved)

  SameRows-respond :
      {A : Type 0} (json : A → Body f) (d : Database f) (x : Result A × Database f)
      → SameRows d x.1
      → SameRows d (respond f json x).1.database
  SameRows-respond json d (ok a, d') h = h
  SameRows-respond json d (err e, d') h = h

  module _ (fault crash : ℕ → Bool) where
    SameRows-run_db :
        {A : Type 0} (json : A → Body f) (read : Action f A) (s : AppState f)
        → SameRows s.database (read s.database).1
        → SameRows s.database (run_db f fault crash json read s).1.database
    unfolding run_db
    SameRows-run_db json read s h = elim (Bool-cases s.poisoned) [
      | inl e ↦ rw e (refl, refl, refl)
      | inr e ↦ elim (Bool-cases (crash s.database.conn.clock)) [
        | inl e' ↦ rw (e, e') h
        | inr e' ↦ rw (e, e') (SameRows-respond json s.database (read s.database) h)
      ]
    ]

    module _ (account_order : List (String × ℕ) → List (String × ℕ))
        (mint_order : List (String × (ℕ × ℕ)) → List (String × (ℕ × ℕ))) where
      SameRows-contention :
          (from_slot to_slot : ℕ) (d : Database f)
          → SameRows d (query_contention_summary f fault account_order from_slot to_slot d).1
      unfolding query_contention_summary
      SameRows-contention from_slot to_slot d = elim (Bool-cases (fault d.conn.clock)) [
        | inl e ↦ rw e (refl, refl, refl)
        | inr e ↦ elim (Bool-cases (fault (d.conn.clock + 1))) [
          | inl e' ↦ rw (e, e') (refl, refl, refl)
          | inr e' ↦ rw (e, e') (refl, refl, refl)
        ]
      ]

      SameRows-handle :
          (r : Request) (s : AppState f)
          → SameRows s.database (handle f fault crash account_order mint_order r s).1.database
      unfolding handle query_tokens query_ohlcv
      SameRows-handle Request.get_health s = (refl, refl, refl)
      SameRows-handle Request.get_tokens s = SameRows-run_db _ _ s (refl, refl, refl)
      SameRows-handle (Request.get_contention from_slot to_slot) s =
          SameRows-run_db _ _ s (SameRows-contention from_slot to_slot s.database)
      SameRows-handle (Request.get_ohlcv mint interval) s =
          elim (Option-cases (interval_of interval)) [
            | inl e ↦ rw (handle, e) (refl, refl, refl)
            | inr (i, e) ↦ rw (handle, e) (SameRows-run_db _ _ s (refl, refl, refl))
          ]

      -- Whatever the requests, and wherever the engine and the workers fail, the rows of all tables
      -- stay as they are, and no transaction is opened or closed.
      pub serve-SameRows :
          (requests : List Request) (s : AppState f)
          → SameRows s.database (serve f fault crash account_order mint_order requests s).1.database
      unfolding serve
      serve-SameRows [] s = (refl, refl, refl)
      serve-SameRows (r ∷ requests) s =
          let (c, t, v) = SameRows-handle r s in
          let (c', t', v') =
            serve-SameRows requests (handle f fault crash account_order mint_order r s).1 in
          (c' ∙ c, t' ∙ t, v' ∙ v)

      -- If the table holds no candle of a mint at an interval that the API knows, an
      -- `upsert_candles` of candles in strictly ascending order of their buckets succeeds, and
      -- neither the engine nor the worker fails after it, then a request for that series, with
      -- the lock sound, is answered with 200 and just those candles.
      pub handle-upsert_candles :
          (mint interval : String) (interval_sec : ℕ) (cs : List (Candle f)) (d : Database f)
          → interval_of interval ≡ some interval_sec
          → Ascending (starts f cs)
          → select_candles f (mint, interval_sec) d.candles ≡ []
          → (upsert_candles f fault mint interval_sec cs d).0 ≡ ok tt
          → fault (upsert_candles f fault mint interval_sec cs d).1.conn.clock ≡ false
          → crash (upsert_candles f fault mint interval_sec cs d).1.conn.clock ≡ false
          → (handle f fault crash account_order mint_order
              (Request.get_ohlcv mint interval)
              (record {
                poisoned = false;
                database = (upsert_candles f fault mint interval_sec cs d).1;
              })).0
            ≡ accept f (Body.candles cs)
      unfolding handle run_db
      handle-upsert_candles mint interval interval_sec cs d known a none_yet h quiet calm =
          let after = (upsert_candles f fault mint interval_sec cs d).1 in
          let found =
            query_ohlcv-upsert_candles f fault mint interval_sec cs d a none_yet h quiet in
          rw (handle, known, run_db, calm)
            (answered (query_ohlcv f fault mint interval_sec after) found)
        where
          answered :
              (x : Result (List (Candle f)) × Database f)
              → x.0 ≡ ok cs
              → (respond f Body.candles x).0 ≡ accept f (Body.candles cs)
          answered (ok a, d') e =
              let same : a ≡ cs = cc (e) in ap (λ b. accept f (Body.candles b)) same
          answered (err e', d') e = absurd (cc (e))
