-- ===== src/Archive/Pass/Stored.antt =====
-- The whole pass: what the table of candles holds after it.
use mathlib.Core.Path.{subst}
use tenso.Prelude.{
  ℕ, suc, ◌≡◌, ◌≢◌, ap, ◌∙◌, String, Bool, true, false, if◌then◌else◌, Option, some, List, [], ◌∷◌,
  arith, text_eq,
}
use tenso.Prelude.Int.{ℤ}
use tenso.Prelude.Maps.{or_else}
use tenso.Floats.{Floats}
use tenso.Ohlcv.{TxSnapshot, InferredTrade, Candle}
use tenso.Ohlcv.Groups.{or_empty}
use tenso.Storage.{Result, ok, err, engine_error, BalanceDbRow}
use tenso.Pipeline.{BalanceChangeRow, snapshots_from_balance_rows}
use tenso.Archive.{Database, read_range, query_balance_changes_for_range}
use tenso.Archive.Candles.{find_candle, at_start}
use tenso.Archive.Pass.{infer_all, store_by_mint, store_intervals, build_and_store_candles}
use tenso.Archive.Pass.Found.{
  Reorders, resume-ok, bucket_candle, build_candles_lem, store_by_mint_lem,
}

read_rows :
    {A : Type 0} (rows' rows : A) (b : Bool) {x : Result A}
    → (if b then err engine_error else x) ≡ ok rows'
    → x ≡ ok rows
    → rows' ≡ rows
read_rows rows' rows true h e = absurd (cc (h))
read_rows rows' rows false h e = cc (h, e)

-- The trades that the pass infers from the rows that it reads.
abbrev pub inferred :
    (f : Floats)
    → (List (String × TxSnapshot) → List (String × TxSnapshot))
    → List BalanceChangeRow
    → List (InferredTrade f)
inferred f hash_order rows = infer_all f (snapshots_from_balance_rows hash_order rows)

module _ (f : Floats) (fault : ℕ → Bool)
    (mint_order : ℕ → List (String × List (Candle f)) → List (String × List (Candle f))) where
  abbrev run_intervals :
      List (InferredTrade f) → List ℕ → Database f → Option (Result (Unit {0}) × Database f)
  run_intervals = store_intervals f fault mint_order

  -- The candles of an interval are stored in the table, and nothing else is.
  abbrev Stored : ℕ → List (InferredTrade f) → Database f → Database f → Type 0
  Stored interval_sec trades d d' =
      ((mint : String) (b : ℤ)
        → find_candle f ((mint, interval_sec), b) d'.candles
          ≡ or_else (bucket_candle f trades mint interval_sec b)
              (find_candle f ((mint, interval_sec), b) d.candles))
      × ((series : String × ℕ) (b : ℤ)
          → interval_sec ≢ series.1
          → find_candle f (series, b) d'.candles ≡ find_candle f (series, b) d.candles)

  abbrev pub StoredBoth : List (InferredTrade f) → Database f → Database f → Type 0
  StoredBoth trades d d' =
      ((mint : String) (b : ℤ)
        → find_candle f ((mint, 60), b) d'.candles
          ≡ or_else (bucket_candle f trades mint 60 b) (find_candle f ((mint, 60), b) d.candles))
      × ((mint : String) (b : ℤ)
          → find_candle f ((mint, 300), b) d'.candles
            ≡ or_else (bucket_candle f trades mint 300 b)
                (find_candle f ((mint, 300), b) d.candles))
      × ((series : String × ℕ) (b : ℤ)
          → 60 ≢ series.1
          → 300 ≢ series.1
          → find_candle f (series, b) d'.candles ≡ find_candle f (series, b) d.candles)

  interval_step :
      (k : ℕ) (trades : List (InferredTrade f)) (intervals : List ℕ) (d d' : Database f)
      → Reorders (mint_order (suc k))
      → run_intervals trades (suc k ∷ intervals) d ≡ some (ok tt, d')
      → (mid : Database f) × (run_intervals trades intervals mid ≡ some (ok tt, d'))
        × Stored (suc k) trades d mid
  unfolding store_intervals
  interval_step k trades intervals d d' reorders h =
      let (by_mint, built, dist, held) = build_candles_lem f k trades in
      let (dist', same) = reorders by_mint dist in
      let run = store_by_mint f fault (suc k) (mint_order (suc k) by_mint) d in
      let (a, ran, rest) =
        resume-ok run (λ a. run_intervals trades intervals) tt d'
          (rw (built, store_intervals) at h) in
      let (mine, others) =
        store_by_mint_lem f fault (suc k) (mint_order (suc k) by_mint) d dist'
          (λ mint. rw (same mint) ((held mint).0)) ran in
      (
        run.1,
        rest,
        (
          λ mint b.
              mine mint b
              ∙ ap (λ o. or_else o (find_candle f ((mint, suc k), b) d.candles))
                  (ap (λ o. at_start f b (or_empty o)) (same mint) ∙ (held mint).1 b),
          others,
        ),
      )

  intervals_lem :
      (trades : List (InferredTrade f)) (d d' : Database f)
      → Reorders (mint_order 60)
      → Reorders (mint_order 300)
      → run_intervals trades (60 ∷ 300 ∷ []) d ≡ some (ok tt, d')
      → StoredBoth trades d d'
  unfolding store_intervals
  intervals_lem trades d d' r60 r300 h =
      let (mid, ran, (minutes, kept)) = interval_step 59 trades (300 ∷ []) d d' r60 h in
      let (mid', ran', (fives, kept')) = interval_step 299 trades [] mid d' r300 ran in
      let same : mid' ≡ d' = cc (ran') in
      let go : StoredBoth trades d mid' = (
        λ mint b. kept' (mint, 60) b (λ e. omega (arith, e)) ∙ minutes mint b,
        λ mint b.
            fives mint b
            ∙ ap (or_else (bucket_candle f trades mint 300 b))
                (kept (mint, 300) b (λ e. omega (arith, e))),
        λ series b ne ne'. kept' series b ne' ∙ kept series b ne,
      ) in
      subst (StoredBoth trades d) same go

  module _ (order : List BalanceDbRow → List BalanceDbRow)
      (hash_order : List (String × TxSnapshot) → List (String × TxSnapshot))
      (from_slot to_slot : ℕ) where
    -- Let the order of the map of candles be any that keeps its keys distinct and its values, and
    -- let `rows` be the balance rows of the range as they are read. If the pass succeeds, then
    -- after it the table holds, for each mint and each bucket of one minute and of five, the
    -- candle of just the trades inferred from the rows that are of that mint and in that bucket,
    -- in time order; where there are no such trades, it holds what it held before. The candles of
    -- other intervals stand as they did.
    pub find-build_and_store_candles :
        (rows : List BalanceChangeRow) (d d' : Database f)
        → Reorders (mint_order 60)
        → Reorders (mint_order 300)
        → read_range from_slot to_slot (order d.conn.tables.token_balance_changes) ≡ ok rows
        → build_and_store_candles f fault mint_order order hash_order from_slot to_slot d
          ≡ some (ok tt, d')
        → StoredBoth (inferred f hash_order rows) d d'
    unfolding build_and_store_candles query_balance_changes_for_range
    find-build_and_store_candles rows d d' r60 r300 read h =
        let run = query_balance_changes_for_range f fault order from_slot to_slot d in
        let (rows', got, rest) =
          resume-ok run (λ rs. run_intervals (inferred f hash_order rs) (60 ∷ 300 ∷ [])) tt d' h in
        let same : rows' ≡ rows = read_rows rows' rows (fault d.conn.clock) got read in
        subst (λ rs. StoredBoth (inferred f hash_order rs) d d') same
          (intervals_lem (inferred f hash_order rows') run.1 d' r60 r300 rest)
