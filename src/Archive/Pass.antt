-- ===== src/Archive/Pass.antt =====
-- crates/cli/src/main.rs: the pass over the stored rows that builds the candles.
-- `none` stands for a panic. `order` is the order of the balance rows of a range, `hash_order` the
-- order in which the snapshots leave their map, and `mint_order` that of the map of candles, for
-- each interval a map of its own. The lock on the connection is taken to be sound.
pub mod Found
pub mod Stored
pub mod Ends
use tenso.Prelude.{ℕ, String, Bool, Option, none, some, List, [], ◌∷◌, ◌++◌}
use tenso.Prelude.Int.{pos}
use tenso.Floats.{Floats}
use tenso.Ohlcv.{TxSnapshot, InferredTrade, Candle, infer_trades, build_candles}
use tenso.Storage.{Result, ok, err, BalanceDbRow}
use tenso.Pipeline.{snapshots_from_balance_rows}
use tenso.Archive.{Database, Action, upsert_candles, query_balance_changes_for_range}

abbrev pub after : {S A B : Type 0} → Result A × S → (S → Result B × S) → Result B × S
after (ok a, s) k = k s
after (err e, s) k = (err e, s)

-- The same, where what follows may panic.
abbrev pub resume :
    {S A B : Type 0} → Result A × S → (A → S → Option (Result B × S)) → Option (Result B × S)
resume (ok a, s) k = k a s
resume (err e, s) k = some (err e, s)

module _ (f : Floats) where
  -- trades.extend(ohlcv::infer_trades(tx))
  unfoldable pub infer_all : List TxSnapshot → List (InferredTrade f)
  infer_all [] = []
  infer_all (tx ∷ snapshots) = infer_trades f tx ++ infer_all snapshots

  module _ (fault : ℕ → Bool) where
    -- One round of the loop over the intervals.
    unfoldable pub store_by_mint : ℕ → List (String × List (Candle f)) → Action f (Unit {0})
    store_by_mint interval_sec [] d = (ok tt, d)
    store_by_mint interval_sec ((mint, candles) ∷ by_mint) d =
        after (upsert_candles f fault mint interval_sec candles d)
          (store_by_mint interval_sec by_mint)

    module _
        (mint_order : ℕ → List (String × List (Candle f)) → List (String × List (Candle f))) where
      unfoldable pub store_intervals :
          List (InferredTrade f) → List ℕ → Database f → Option (Result (Unit {0}) × Database f)
      store_intervals trades [] d = some (ok tt, d)
      store_intervals trades (interval_sec ∷ intervals) d =
          elim (build_candles f trades (pos interval_sec)) [
            | none ↦ none
            | some by_mint ↦
                resume (store_by_mint interval_sec (mint_order interval_sec by_mint) d)
                  (λ a. store_intervals trades intervals)
          ]

      unfoldable pub build_and_store_candles :
          (order : List BalanceDbRow → List BalanceDbRow)
          → (hash_order : List (String × TxSnapshot) → List (String × TxSnapshot)) → ℕ
          → ℕ
          → Database f
          → Option (Result (Unit {0}) × Database f)
      build_and_store_candles order hash_order from_slot to_slot d =
          resume (query_balance_changes_for_range f fault order from_slot to_slot d) (λ rows.
            store_intervals (infer_all (snapshots_from_balance_rows hash_order rows))
              (60 ∷ 300 ∷ []))
