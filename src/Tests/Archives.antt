-- ===== src/Tests/Archives.antt =====
-- A swap in the table of balance changes, the pass that makes candles of it, and the queries.
use tenso.Prelude.{ℕ, ◌≡◌, refl, String, true, false, Option, some, List, [], ◌∷◌, map, Eq, text_eq}
use tenso.Prelude.Int.{ℤ, pos}
use tenso.Ohlcv.{wsol_mint, Candle}
use tenso.Storage.{ok, BalanceDbRow}
use tenso.Pipeline.{BalanceChangeRow}
use tenso.Archive.{CandleDbRow, Database, upsert_candles, read_range}
use tenso.Archive.Pass.{build_and_store_candles}
use tenso.Archive.Pass.Found.{Reorders}
use tenso.Archive.Pass.Stored.{inferred, StoredBoth, find-build_and_store_candles}
use tenso.Archive.Queries.{TokenOption, ContentionSummary, query_tokens, query_contention_summary}
use tenso.Archive.Queries.Tokens.{find_token, find_token-query_tokens}
use tenso.Archive.Queries.Summary.{Told, query_contention_summary_lem}
use tenso.Tests.Slots.{no_fault, empty}
use tenso.Tests.Trades.{whole}

abbrev leg : String → ℕ → ℕ → BalanceDbRow
leg mint pre post = record {
  tx_signature = "sig";
  slot = pos 7;
  block_time = some (pos 65);
  mint = mint;
  pre_amount = pre;
  post_amount = post;
  decimals = 0;
}

abbrev pub kept : {A : Type 0} → A → A
kept a = a

abbrev pub in_order : {A : Type 0} → ℕ → A → A
in_order i a = a

pub kept-Reorders : {K V : Type 0} ⦃e : Eq K⦄ → Reorders {K = K} {V = V} kept
kept-Reorders m d = (d, λ k. refl)

-- Six wrapped SOL for two tokens.
abbrev pub swapped : Database whole
swapped = record {
  conn = record empty {
    tables = record empty.tables {
      token_balance_changes = leg "MINT" 5 3 ∷ leg wsol_mint 0 6 ∷ [];
      transactions =
          record {
            signature = "sig";
            slot = pos 7;
            block_time = some (pos 65);
            failed = false;
            program_ids = "";
            step = some 2;
          }
          ∷ [];
      account_locks =
          record { slot = pos 7; tx_signature = "sig"; account = "pool"; is_writable = true } ∷ [];
    };
  };
  candles = [];
}

abbrev pub candle_at : ℤ → Candle whole
candle_at b = record {
  bucket_start = b;
  open_price = pos 3;
  high = pos 3;
  low = pos 3;
  close = pos 3;
  volume = pos 6;
}

abbrev candle_row : ℕ → ℤ → CandleDbRow whole
candle_row interval_sec b = record {
  mint = "MINT";
  interval_sec = interval_sec;
  candle = candle_at b;
}

abbrev with_candles : Database whole
with_candles = record {
  conn = record swapped.conn { clock = 3 };
  candles = candle_row 60 (pos 60) ∷ candle_row 300 (pos 0) ∷ [];
}

abbrev read_rows : List BalanceChangeRow
read_rows =
    map
      (λ r. record {
        tx_signature = r.tx_signature;
        slot = 7;
        block_time = r.block_time;
        mint = r.mint;
        pre_amount = r.pre_amount;
        post_amount = r.post_amount;
        decimals = r.decimals;
      })
      swapped.conn.tables.token_balance_changes

rows_read : read_range 7 9 swapped.conn.tables.token_balance_changes ≡ ok read_rows
unfolding read_range tenso.Storage.as_i64 tenso.Archive.read_balance_row
rows_read = refl

pass_ran :
    build_and_store_candles whole no_fault in_order kept kept 7 9 swapped
    ≡ some (ok tt, with_candles)
unfolding build_and_store_candles tenso.Archive.query_balance_changes_for_range read_range
    tenso.Storage.as_i64 tenso.Archive.read_balance_row tenso.Archive.Pass.store_intervals
    tenso.Ohlcv.build_candles tenso.Ohlcv.each_mint tenso.Ohlcv.group_mints
    tenso.Archive.Pass.infer_all tenso.Pipeline.snapshots_from_balance_rows
    tenso.Pipeline.group_rows tenso.Prelude.Maps.insert tenso.Prelude.text_discrete
    tenso.Ohlcv.infer_trades tenso.Ohlcv.find_mint tenso.Prelude.Maps.get
    tenso.Prelude.Int.ℤ_discrete tenso.Prelude.ℕ_discrete tenso.Archive.Pass.store_by_mint
    tenso.Archive.put_candle upsert_candles tenso.Ohlcv.bucket_start tenso.Ohlcv.candle
    tenso.Ohlcv.candles tenso.Ohlcv.delta_ui tenso.Ohlcv.fold_max tenso.Ohlcv.fold_min
    tenso.Ohlcv.group_buckets tenso.Ohlcv.infer_each tenso.Ohlcv.infer_trade tenso.Ohlcv.insert_key
    tenso.Ohlcv.insert_trade tenso.Ohlcv.last_from tenso.Ohlcv.mint_candles tenso.Ohlcv.push_at
    tenso.Ohlcv.sort_keys tenso.Ohlcv.sort_trades tenso.Ohlcv.sum_volume
    tenso.Prelude.Int.div_euclid tenso.Prelude.Int.◌*ℤ◌ tenso.Prelude.Int.◌+ℤ◌
    tenso.Prelude.decide_pair
pass_ran = refl

find-build_and_store_candles_example :
    StoredBoth whole no_fault in_order (inferred whole kept read_rows) swapped with_candles
find-build_and_store_candles_example =
    find-build_and_store_candles whole no_fault in_order kept kept 7 9 read_rows swapped
      with_candles kept-Reorders kept-Reorders rows_read pass_ran

abbrev pub two_candles : List (Candle whole)
two_candles = candle_at (pos 60) ∷ candle_at (pos 120) ∷ []

upserted : (upsert_candles whole no_fault "MINT" 60 two_candles with_candles).0 ≡ ok tt
unfolding upsert_candles
upserted = refl

abbrev token : TokenOption
token = record { mint = "MINT"; candles_1m = 1; candles_5m = 1 }

tokens_ran : (query_tokens whole no_fault kept with_candles).0 ≡ ok (token ∷ [])
unfolding query_tokens tenso.Archive.Queries.token_groups tenso.Archive.Ranking.sort_ranked
    tenso.Archive.Queries.having_candles tenso.Archive.Queries.count_candles
    tenso.Prelude.Maps.insert tenso.Prelude.text_discrete tenso.Prelude.Maps.get
    tenso.Prelude.ℕ_discrete tenso.Archive.Ranking.insert_ranked
tokens_ran = refl

find_token-query_tokens_example : find_token "MINT" (token ∷ []) ≡ some token
unfolding tenso.Archive.select_candles tenso.Prelude.decide_pair tenso.Prelude.text_discrete
    tenso.Prelude.ℕ_discrete
find_token-query_tokens_example =
    find_token-query_tokens whole no_fault kept "MINT" with_candles (token ∷ []) kept-Reorders
      tokens_ran

abbrev pub summary_7 : ContentionSummary
summary_7 = record { depth = 3; top_conflicting_accounts = ("pool", 1) ∷ [] }

summary_ran : (query_contention_summary whole no_fault kept 7 9 swapped).0 ≡ ok summary_7
unfolding query_contention_summary tenso.Archive.Queries.max_stored_step
    tenso.Archive.Queries.top_accounts tenso.Storage.as_i64 tenso.Archive.Ranking.sort_ranked
    tenso.Archive.Queries.count_locks tenso.Prelude.Maps.insert tenso.Archive.Ranking.insert_ranked
    tenso.Prelude.Maps.get
summary_ran = refl

query_contention_summary_example : Told whole no_fault kept 7 9 swapped summary_7
query_contention_summary_example =
    query_contention_summary_lem whole no_fault kept 7 9 swapped summary_7 kept-Reorders summary_ran
