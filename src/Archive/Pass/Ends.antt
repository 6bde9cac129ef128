-- ===== src/Archive/Pass/Ends.antt =====
-- The pass gets to its end.
use tenso.Prelude.{ℕ, ◌≡◌, refl, ap, ◌∙◌, String, Bool, false, Option, some, List, [], ◌∷◌}
use tenso.Floats.{Floats}
use tenso.Ohlcv.{TxSnapshot, InferredTrade, Candle}
use tenso.Storage.{Result, ok, err, BalanceDbRow}
use tenso.Pipeline.{BalanceChangeRow, snapshots_from_balance_rows}
use tenso.Archive.{Database, read_range, upsert_candles, query_balance_changes_for_range}
use tenso.Archive.Pass.{
  after, resume, infer_all, store_by_mint, store_intervals, build_and_store_candles,
}
use tenso.Archive.Pass.Found.{build_candles_lem}

after_ok :
    {S A B : Type 0} (x : Result A × S) (k : S → Result B × S) (a : A)
    → x.0 ≡ ok a
    → after x k ≡ k x.1
after_ok (ok b, s) k a h = refl
after_ok (err e, s) k a h = absurd (cc (h))

resume_ok :
    {S A B : Type 0} (x : Result A × S) (k : A → S → Option (Result B × S)) (a : A)
    → x.0 ≡ ok a
    → resume x k ≡ k a x.1
resume_ok (ok b, s) k a h = let same : b ≡ a = cc (h) in ap (λ c. k c s) same
resume_ok (err e, s) k a h = absurd (cc (h))

resume-some :
    {S A B : Type 0} (x : Result A × S) (k : A → S → Option (Result B × S))
    → ((a : A) (s : S) → (y : Result B × S) × (k a s ≡ some y))
    → (y : Result B × S) × (resume x k ≡ some y)
resume-some (ok a, s) k h = h a s
resume-some (err e, s) k h = ((err e, s), refl)

module _ (f : Floats) (fault : ℕ → Bool)
    (mint_order : ℕ → List (String × List (Candle f)) → List (String × List (Candle f)))
    (order : List BalanceDbRow → List BalanceDbRow)
    (hash_order : List (String × TxSnapshot) → List (String × TxSnapshot))
    (from_slot to_slot : ℕ) where
  intervals_end :
      (trades : List (InferredTrade f)) (d : Database f)
      → (y : Result (Unit {0}) × Database f) × (store_intervals f fault mint_order trades
            (60 ∷ 300 ∷ [])
            d
          ≡ some y)
  unfolding store_intervals
  intervals_end trades d =
      let (minutes, built, _, _) = build_candles_lem f 59 trades in
      let (fives, built', _, _) = build_candles_lem f 299 trades in
      rw (built, store_intervals)
        (resume-some (store_by_mint f fault 60 (mint_order 60 minutes) d) _ (λ a s.
          rw (built', store_intervals)
            (resume-some (store_by_mint f fault 300 (mint_order 300 fives) s) _
              (λ a s. (_, refl)))))

  -- The pass never panics, wherever the engine fails: it ends with a result and a table.
  pub build_and_store_candles_lem :
      (d : Database f)
      → (y : Result (Unit {0}) × Database f) × (build_and_store_candles f fault mint_order order
            hash_order from_slot to_slot d
          ≡ some y)
  unfolding build_and_store_candles
  build_and_store_candles_lem d =
      resume-some (query_balance_changes_for_range f fault order from_slot to_slot d) _
        (λ rows. intervals_end (infer_all f (snapshots_from_balance_rows hash_order rows)))

  module _ (quiet : (n : ℕ) → fault n ≡ false) where
    upsert_candles-quiet :
        (mint : String) (interval_sec : ℕ) (cs : List (Candle f)) (d : Database f)
        → (upsert_candles f fault mint interval_sec cs d).0 ≡ ok tt
    unfolding upsert_candles
    upsert_candles-quiet mint interval_sec [] d = refl
    upsert_candles-quiet mint interval_sec (c ∷ cs) d =
        rw (quiet d.conn.clock, upsert_candles) (upsert_candles-quiet mint interval_sec cs _)

    store_by_mint-quiet :
        (interval_sec : ℕ) (by_mint : List (String × List (Candle f))) (d : Database f)
        → (store_by_mint f fault interval_sec by_mint d).0 ≡ ok tt
    unfolding store_by_mint
    store_by_mint-quiet interval_sec [] d = refl
    store_by_mint-quiet interval_sec ((mint, cs) ∷ by_mint) d =
        ap (λ x. x.0)
          (after_ok (upsert_candles f fault mint interval_sec cs d) _ tt
            (upsert_candles-quiet mint interval_sec cs d))
        ∙ store_by_mint-quiet interval_sec by_mint _

    intervals-quiet :
        (trades : List (InferredTrade f)) (d : Database f)
        → (d' : Database f) × (store_intervals f fault mint_order trades (60 ∷ 300 ∷ []) d
            ≡ some (ok tt, d'))
    unfolding store_intervals
    intervals-quiet trades d =
        let (minutes, built, _, _) = build_candles_lem f 59 trades in
        let (fives, built', _, _) = build_candles_lem f 299 trades in
        let first = store_by_mint f fault 60 (mint_order 60 minutes) d in
        let second = store_by_mint f fault 300 (mint_order 300 fives) first.1 in
        (
          second.1,
          rw (built, store_intervals)
              (resume_ok first _ tt (store_by_mint-quiet 60 (mint_order 60 minutes) d)
                ∙ rw (built', store_intervals)
                    (resume_ok second _ tt
                      (store_by_mint-quiet 300 (mint_order 300 fives) first.1))),
        )

    -- If the engine does not fail and the balance rows of the range can be read, the pass succeeds.
    pub build_and_store_candles-quiet :
        (rows : List BalanceChangeRow) (d : Database f)
        → read_range from_slot to_slot (order d.conn.tables.token_balance_changes) ≡ ok rows
        → (d' : Database f) × (build_and_store_candles f fault mint_order order hash_order from_slot
              to_slot d
            ≡ some (ok tt, d'))
    unfolding build_and_store_candles query_balance_changes_for_range
    build_and_store_candles-quiet rows d read =
        let run = query_balance_changes_for_range f fault order from_slot to_slot d in
        let got : run.0 ≡ ok rows = rw (quiet d.conn.clock) read in
        let (d', ran) =
          intervals-quiet (infer_all f (snapshots_from_balance_rows hash_order rows)) run.1 in
        (d', resume_ok run _ rows got ∙ ran)
