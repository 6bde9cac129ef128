-- ===== src/Archive/Queries/Stats.antt =====
-- What `query_db_stats` counts.
use mathlib.Core.Path.{fun_ext, subst}
use tenso.Prelude.{
  ℕ, ◌+◌, ◌≡◌, refl, sym, ◌∙◌, ◌↔◌, String, Bool, true, false, List, map, length, if_pos, if_neg,
  ite, ℕ_discrete,
}
use tenso.Floats.{Floats}
use tenso.Ohlcv.{wsol_mint}
use tenso.Storage.{ok, BalanceDbRow, transaction_key, balance_key}
use tenso.Storage.Invariant.{Unique}
use tenso.Archive.{CandleDbRow, Database, candle_key}
use tenso.Archive.Invariant.{ConsistentDatabase}
use tenso.Archive.Queries.{
  DbStats, count_where, count_distinct, wsol_signatures, of_interval, query_db_stats,
}
use tenso.Archive.Queries.Counted.{
  IsNumberOf, IsNumberOf-iff, HasRow, HasRowWhere, Memᴰ-map, length-IsNumberOf,
  count_where-IsNumberOf, count_distinct-IsNumberOf, Memᴰ-wsol_signatures,
}

has_interval : (n i : ℕ) → (ite (ℕ_discrete n i) true false ≡ true) ↔ (n ≡ i)
has_interval n i = elim (ℕ_discrete n i) [
  | yes p ↦ (λ h. p, λ h. if_pos (ℕ_discrete n i) p _ _)
  | no p ↦ (
    λ h. absurd (let bad : false ≡ true = sym (if_neg (ℕ_discrete n i) p _ _) ∙ h in cc (bad)),
    λ h. absurd (p h),
  )
]

module _ (f : Floats) where
  -- What the nine queries count.
  abbrev pub stats_of : Database f → DbStats
  stats_of d =
      let t = d.conn.tables in
      record {
        blocks = length t.blocks;
        transactions = length t.transactions;
        failed_transactions = count_where (λ r. r.failed) t.transactions;
        token_change_rows = length t.token_balance_changes;
        distinct_mints = count_distinct (map (λ r. r.mint) t.token_balance_changes);
        distinct_tx_with_balances =
            count_distinct (map (λ r. r.tx_signature) t.token_balance_changes);
        tx_with_wsol = count_distinct (wsol_signatures t.token_balance_changes);
        candles_1m = count_where (of_interval f 60) d.candles;
        candles_5m = count_where (of_interval f 300) d.candles;
      }

  -- What the nine numbers are.
  pub record StatsOf (d : Database f) (s : DbStats) : Type 1 where
    pub blocks : IsNumberOf s.blocks (HasRow (λ b. b.slot) d.conn.tables.blocks)
    pub transactions : IsNumberOf s.transactions (HasRow transaction_key d.conn.tables.transactions)
    pub failed_transactions :
        IsNumberOf s.failed_transactions
          (HasRowWhere transaction_key (λ r. r.failed ≡ true) d.conn.tables.transactions)
    pub token_change_rows :
        IsNumberOf s.token_change_rows (HasRow balance_key d.conn.tables.token_balance_changes)
    pub distinct_mints :
        IsNumberOf s.distinct_mints (HasRow (λ r. r.mint) d.conn.tables.token_balance_changes)
    pub distinct_tx_with_balances :
        IsNumberOf s.distinct_tx_with_balances
          (HasRow (λ r. r.tx_signature) d.conn.tables.token_balance_changes)
    pub tx_with_wsol : IsNumberOf s.tx_with_wsol (
        HasRowWhere
          (λ r. r.tx_signature)
          (λ r. r.mint ≡ wsol_mint)
          d.conn.tables.token_balance_changes)
    pub candles_1m :
        IsNumberOf s.candles_1m (HasRowWhere (candle_key f) (λ c. c.interval_sec ≡ 60) d.candles)
    pub candles_5m :
        IsNumberOf s.candles_5m (HasRowWhere (candle_key f) (λ c. c.interval_sec ≡ 300) d.candles)

  candles-IsNumberOf :
      (i : ℕ) (cs : List (CandleDbRow f))
      → Unique (candle_key f) cs
      → IsNumberOf
          (count_where (of_interval f i) cs)
          (HasRowWhere (candle_key f) (λ c. c.interval_sec ≡ i) cs)
  candles-IsNumberOf i cs u =
      IsNumberOf-iff _ _ _ (count_where-IsNumberOf (candle_key f) (of_interval f i) cs u) λ k. (
        λ h. (h.0, h.1, h.2, (has_interval h.0.interval_sec i).0 h.3),
        λ h. (h.0, h.1, h.2, (has_interval h.0.interval_sec i).1 h.3),
      )

  values-IsNumberOf :
      (value : BalanceDbRow → String) (rows : List BalanceDbRow)
      → IsNumberOf (count_distinct (map value rows)) (HasRow value rows)
  values-IsNumberOf value rows =
      IsNumberOf-iff _ _ _ (count_distinct-IsNumberOf (map value rows)) (Memᴰ-map value rows)

  stats_of-StatsOf : (d : Database f) → ConsistentDatabase f d → StatsOf d (stats_of d)
  stats_of-StatsOf d w =
      let t = d.conn.tables in
      let keys = w.0.0 in
      record {
        blocks = length-IsNumberOf (λ b. b.slot) t.blocks keys.block_keys;
        transactions = length-IsNumberOf transaction_key t.transactions keys.transaction_keys;
        failed_transactions =
            count_where-IsNumberOf transaction_key (λ r. r.failed) t.transactions
              keys.transaction_keys;
        token_change_rows = length-IsNumberOf balance_key t.token_balance_changes keys.balance_keys;
        distinct_mints = values-IsNumberOf (λ r. r.mint) t.token_balance_changes;
        distinct_tx_with_balances = values-IsNumberOf (λ r. r.tx_signature) t.token_balance_changes;
        tx_with_wsol =
            IsNumberOf-iff _ _ _
              (count_distinct-IsNumberOf (wsol_signatures t.token_balance_changes))
              (Memᴰ-wsol_signatures t.token_balance_changes);
        candles_1m = candles-IsNumberOf 60 d.candles w.1;
        candles_5m = candles-IsNumberOf 300 d.candles w.1;
      }

  never_fails :
      (d : Database f)
      → query_db_stats f (λ n. false) d ≡ (
        ok (stats_of d),
        record d {
          conn = record d.conn { clock = d.conn.clock + 1 + 1 + 1 + 1 + 1 + 1 + 1 + 1 + 1 };
        },
      )
  unfolding query_db_stats
  never_fails d = refl

  module _ (fault : ℕ → Bool) where
    module _ (quiet : (n : ℕ) → fault n ≡ false) where
      pub query_db_stats-ok :
          (d : Database f)
          → (clock : ℕ) × (query_db_stats f fault d
              ≡ (ok (stats_of d), record d { conn = record d.conn { clock = clock } }))
      query_db_stats-ok d =
          let never : (λ n. false) ≡ fault = fun_ext λ n. sym (quiet n) in
          subst
            (λ fault.
              (clock : ℕ) × (query_db_stats f fault d
                ≡ (ok (stats_of d), record d { conn = record d.conn { clock = clock } })))
            never (d.conn.clock + 1 + 1 + 1 + 1 + 1 + 1 + 1 + 1 + 1, never_fails d)

      -- On a consistent database where the engine does not fail, the statistics are answered and
      -- no table changes. They are the numbers of the slots of the blocks, of the signatures of the
      -- transactions and of the failed ones, of the pairs of signature and mint with a balance
      -- change, of the mints and of the signatures with one, of the signatures with one in wrapped
      -- SOL, and of the keys of mint, interval and bucket with a candle of one minute, and of five.
      pub query_db_stats_lem :
          (d : Database f)
          → ConsistentDatabase f d
          → (s : DbStats) × (clock : ℕ) × (query_db_stats f fault d
              ≡ (ok s, record d { conn = record d.conn { clock = clock } }))
            × StatsOf d s
      query_db_stats_lem d w =
          let (clock, ran) = query_db_stats-ok d in (stats_of d, clock, ran, stats_of-StatsOf d w)
