-- ===== src/Archive/Invariant.antt =====
-- The table of candles keeps its primary key, and the balance rows of consistent tables can
-- always be read back for the candle pass of crates/cli/src/main.rs.
use mathlib.Core.Path.{subst}
use tenso.Prelude.{
  ℕ, ltb, ◌^◌, ◌≡◌, ◌≢◌, refl, sym, String, Bool, true, false, ◌&&◌, Option, some, List, [], ◌∷◌,
  map, if_pos, if_neg, if◌then◌else◌, All, Fresh, Bool-cases, inl, inr,
}
use tenso.Prelude.Int.{ℤ}
use tenso.Floats.{Floats}
use tenso.Ohlcv.{TxSnapshot, InferredTrade, Candle}
use tenso.Archive.Pass.Found.{build_candles_lem}
use tenso.Storage.{Result, ok, err, engine_error, BalanceDbRow, has_column_range}
use tenso.Storage.Runs.{Result-cases}
use tenso.Storage.Invariant.{Unique}
use tenso.Storage.Invariant.Methods.{ConsistentConn}
use tenso.Pipeline.{BalanceChangeRow}
use tenso.Archive.{
  CandleDbRow, Database, candle_key, pk_eq, put_candle, upsert_candles, read_balance_row,
  read_range, is_between, query_balance_changes_for_range,
}
use tenso.Archive.Pass.{resume, store_by_mint, store_intervals, build_and_store_candles}

module _ (f : Floats) where
  put_candle-Fresh :
      (new : CandleDbRow f) (k : (String × ℕ) × ℤ) (rows : List (CandleDbRow f))
      → candle_key f new ≢ k
      → Fresh k (map (candle_key f) rows)
      → Fresh k (map (candle_key f) (put_candle f new rows))
  unfolding put_candle
  put_candle-Fresh new k [] ne h = (ne, tt)
  put_candle-Fresh new k (r ∷ rows) ne h = elim (pk_eq.dec (candle_key f r) (candle_key f new)) [
    | yes p ↦ rw (if_pos (pk_eq.dec (candle_key f r) (candle_key f new)) p) (ne, h.1)
    | no p ↦
        rw (if_neg (pk_eq.dec (candle_key f r) (candle_key f new)) p)
          (h.0, put_candle-Fresh new k rows ne h.1)
  ]

  put_candle-Unique :
      (new : CandleDbRow f) (rows : List (CandleDbRow f))
      → Unique (candle_key f) rows
      → Unique (candle_key f) (put_candle f new rows)
  unfolding put_candle
  put_candle-Unique new [] u = (tt, tt)
  put_candle-Unique new (r ∷ rows) u = elim (pk_eq.dec (candle_key f r) (candle_key f new)) [
    | yes p ↦
        rw (if_pos (pk_eq.dec (candle_key f r) (candle_key f new)) p)
          (subst (λ k. Fresh k (map (candle_key f) rows)) p u.0, u.1)
    | no p ↦ rw (if_neg (pk_eq.dec (candle_key f r) (candle_key f new)) p) (
      put_candle-Fresh new (candle_key f r) rows (λ q. p (sym q)) u.0,
      put_candle-Unique new rows u.1,
    )
  ]

  -- The invariant of the whole database.
  abbrev pub ConsistentDatabase : Database f → Type 0
  ConsistentDatabase d = ConsistentConn d.conn × Unique (candle_key f) d.candles

  module _ (fault : ℕ → Bool) where
    pub upsert_candles-ConsistentDatabase :
        (mint : String) (interval_sec : ℕ) (cs : List (Candle f)) (d : Database f)
        → ConsistentDatabase d
        → ConsistentDatabase (upsert_candles f fault mint interval_sec cs d).1
    unfolding upsert_candles
    upsert_candles-ConsistentDatabase mint interval_sec [] d w = w
    upsert_candles-ConsistentDatabase mint interval_sec (c ∷ cs) d w =
        elim (Bool-cases (fault d.conn.clock)) [
          | inl e ↦ rw (e, upsert_candles) w
          | inr e ↦
              rw (e, upsert_candles)
                (upsert_candles-ConsistentDatabase mint interval_sec cs _
                  (w.0, put_candle-Unique _ d.candles w.1))
        ]

    store_by_mint-ConsistentDatabase :
        (interval_sec : ℕ) (by_mint : List (String × List (Candle f))) (d : Database f)
        → ConsistentDatabase d
        → ConsistentDatabase (store_by_mint f fault interval_sec by_mint d).1
    unfolding store_by_mint
    store_by_mint-ConsistentDatabase interval_sec [] d w = w
    store_by_mint-ConsistentDatabase interval_sec ((mint, cs) ∷ by_mint) d w =
        let k = upsert_candles-ConsistentDatabase mint interval_sec cs d w in
        elim (Result-cases (upsert_candles f fault mint interval_sec cs d).0) [
          | inl (u, e) ↦
              rw (e, store_by_mint) (store_by_mint-ConsistentDatabase interval_sec by_mint _ k)
          | inr (x, e) ↦ rw (e, store_by_mint) k
        ]

    -- A pass that does not panic, and leaves a consistent database.
    abbrev EndsConsistent : Option (Result (Unit {0}) × Database f) → Type 0
    EndsConsistent o = (y : Result (Unit {0}) × Database f) × (o ≡ some y) × ConsistentDatabase y.1

    resume-EndsConsistent :
        {A : Type 0} (x : Result A × Database f)
        (k : A → Database f → Option (Result (Unit {0}) × Database f))
        → ConsistentDatabase x.1
        → ((a : A) (d : Database f) → ConsistentDatabase d → EndsConsistent (k a d))
        → EndsConsistent (resume x k)
    resume-EndsConsistent (ok a, d) k w h = h a d w
    resume-EndsConsistent (err e, d) k w h = ((err e, d), refl, w)

    module _
        (mint_order : ℕ → List (String × List (Candle f)) → List (String × List (Candle f))) where
      intervals-EndsConsistent :
          (trades : List (InferredTrade f)) (d : Database f)
          → ConsistentDatabase d
          → EndsConsistent (store_intervals f fault mint_order trades (60 ∷ 300 ∷ []) d)
      unfolding store_intervals
      intervals-EndsConsistent trades d w =
          let (minutes, built, _, _) = build_candles_lem f 59 trades in
          let (fives, built', _, _) = build_candles_lem f 299 trades in
          rw (built, store_intervals)
            (resume-EndsConsistent (store_by_mint f fault 60 (mint_order 60 minutes) d) _
              (store_by_mint-ConsistentDatabase 60 (mint_order 60 minutes) d w)
              λ a s w'.
                rw (built', store_intervals)
                  (resume-EndsConsistent (store_by_mint f fault 300 (mint_order 300 fives) s) _
                    (store_by_mint-ConsistentDatabase 300 (mint_order 300 fives) s w')
                    λ a s' w''. ((ok tt, s'), refl, w'')))

      -- The candle pass over any range, begun on a consistent database, does not panic, and leaves
      -- a consistent database however it ends and wherever the engine fails: each key of mint,
      -- interval and bucket stands once in the table of candles.
      pub build_and_store_candles-ConsistentDatabase :
          (order : List BalanceDbRow → List BalanceDbRow)
          (hash_order : List (String × TxSnapshot) → List (String × TxSnapshot))
          (from_slot to_slot : ℕ) (d : Database f)
          → ConsistentDatabase d
          → (y : Result (Unit {0}) × Database f) × (build_and_store_candles f fault mint_order order
                hash_order from_slot to_slot d
              ≡ some y)
            × ConsistentDatabase y.1
      unfolding build_and_store_candles query_balance_changes_for_range
      build_and_store_candles-ConsistentDatabase order hash_order from_slot to_slot d w =
          resume-EndsConsistent (query_balance_changes_for_range f fault order from_slot to_slot d)
            _ w λ rows d' w'. intervals-EndsConsistent _ d' w'

-- A row of amounts within their columns can be read back.
read_balance_row-fits :
    (r : BalanceDbRow)
    → has_column_range r ≡ true
    → (b : BalanceChangeRow) × (read_balance_row r ≡ ok b)
unfolding read_balance_row
read_balance_row-fits r h =
    (_, in_both (ltb r.pre_amount (2 ^ 63)) (ltb r.post_amount (2 ^ 63)) _ _ h)
  where
    in_both :
        (p q x : Bool) (b : BalanceChangeRow)
        → (p && q && x) ≡ true
        → (if p && q then ok b else err engine_error) ≡ ok b
    in_both true true x b e = refl
    in_both true false x b e = absurd (cc (e))
    in_both false q x b e = absurd (cc (e))

module _ (from_slot to_slot : ℕ) where
  pub read_range-fits :
      (rows : List BalanceDbRow)
      → All (λ r. has_column_range r ≡ true) rows
      → (bs : List BalanceChangeRow) × (read_range from_slot to_slot rows ≡ ok bs)
  unfolding read_range
  read_range-fits [] a = ([], refl)
  read_range-fits (r ∷ rows) (h, a) =
      let (bs, e) = read_range-fits rows a in
      let (b, e') = read_balance_row-fits r h in
      elim (Bool-cases (is_between from_slot to_slot r.slot)) [
        | inl t ↦ (b ∷ bs, rw (t, e', e, read_range) refl)
        | inr t ↦ (bs, rw (t, e, read_range) refl)
      ]

-- ORDER BY adds no row.
abbrev pub AddsNoRow : (List BalanceDbRow → List BalanceDbRow) → Type 1
AddsNoRow order =
    (P : BalanceDbRow → Type 0) (rows : List BalanceDbRow) → All P rows → All P (order rows)
