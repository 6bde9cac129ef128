-- ===== src/Archive/Queries.antt =====
-- crates/storage/src/repository.rs: the queries that count rows, for the API and for `stats`.
-- `group_order` is the order in which GROUP BY leaves the groups, which ORDER BY keeps among groups
-- of the same count.
pub mod Summary
pub mod Tokens
pub mod Depth
pub mod Counted
pub mod Stats
use tenso.Prelude.{
  ℕ, zero, suc, ◌+◌, String, Bool, true, false, ◌&&◌, ◌||◌, Option, none, some, List, [], ◌∷◌, map,
  if◌then◌else◌, ite, length, take, ltb, text_discrete, text_eq, ℕ_discrete, max,
}
use tenso.Prelude.Maps.{get, insert}
use tenso.Floats.{Floats}
use tenso.Ohlcv.{wsol_mint}
use tenso.Storage.{Result, ok, err, TransactionDbRow, AccountLockDbRow, BalanceDbRow}
use tenso.Archive.{CandleDbRow, Database, Action, is_between, query}
use tenso.Archive.Ranking.{sort_ranked}

pub record ContentionSummary : Type 0 where
  pub depth : ℕ
  pub top_conflicting_accounts : List (String × ℕ)

pub record TokenOption : Type 0 where
  pub mint : String
  pub candles_1m : ℕ
  pub candles_5m : ℕ

pub record DbStats : Type 0 where
  pub blocks : ℕ
  pub transactions : ℕ
  pub failed_transactions : ℕ
  pub token_change_rows : ℕ
  pub distinct_mints : ℕ
  pub distinct_tx_with_balances : ℕ
  pub tx_with_wsol : ℕ
  pub candles_1m : ℕ
  pub candles_5m : ℕ

-- MAX passes over NULL.
abbrev larger : Option ℕ → Option ℕ → Option ℕ
larger none n = n
larger (some m) none = some m
larger (some m) (some n) = some (max m n)

-- SELECT MAX(step) FROM transactions WHERE slot BETWEEN ? AND ?
unfoldable pub max_stored_step : ℕ → ℕ → List TransactionDbRow → Option ℕ
max_stored_step from_slot to_slot [] = none
max_stored_step from_slot to_slot (r ∷ rows) =
    let rest = max_stored_step from_slot to_slot rows in
    if is_between from_slot to_slot r.slot then larger r.step rest else rest

-- COALESCE(.., -1) + 1
abbrev pub next_step : Option ℕ → ℕ
next_step none = 0
next_step (some m) = m + 1

abbrev pub count_or_zero : Option ℕ → ℕ
count_or_zero none = 0
count_or_zero (some n) = n

-- WHERE slot BETWEEN ? AND ? AND is_writable = true
abbrev pub is_counted : ℕ → ℕ → AccountLockDbRow → Bool
is_counted from_slot to_slot l = is_between from_slot to_slot l.slot && l.is_writable

-- SELECT account, COUNT(*) .. GROUP BY account
unfoldable pub count_locks : ℕ → ℕ → List AccountLockDbRow → List (String × ℕ) → List (String × ℕ)
count_locks from_slot to_slot [] m = m
count_locks from_slot to_slot (l ∷ locks) m =
    if is_counted from_slot to_slot l
    then count_locks from_slot to_slot locks
        (insert l.account (count_or_zero (get l.account m) + 1) m)
    else count_locks from_slot to_slot locks m

abbrev pub count_weight : ℕ → ℕ
count_weight n = n

-- ORDER BY conflict_count DESC LIMIT 20
unfoldable pub top_accounts :
    (group_order : List (String × ℕ) → List (String × ℕ))
    → ℕ
    → ℕ
    → List AccountLockDbRow
    → List (String × ℕ)
top_accounts group_order from_slot to_slot locks =
    take 20 (sort_ranked count_weight (group_order (count_locks from_slot to_slot locks [])))

abbrev pub or_zeros : Option (ℕ × ℕ) → ℕ × ℕ
or_zeros none = (0, 0)
or_zeros (some n) = n

-- CASE WHEN interval_sec = 60 THEN 1 ELSE 0 END, and the same for 300
abbrev pub one_if : ℕ → ℕ → ℕ
one_if interval_sec wanted = ite (ℕ_discrete interval_sec wanted) 1 0

abbrev pub add_row : ℕ → ℕ × ℕ → ℕ × ℕ
add_row interval_sec (minutes, fives) =
    (minutes + one_if interval_sec 60, fives + one_if interval_sec 300)

abbrev pub token_weight : ℕ × ℕ → ℕ
token_weight (minutes, fives) = minutes + fives

-- HAVING .. > 0 OR .. > 0
unfoldable pub having_candles : List (String × (ℕ × ℕ)) → List (String × (ℕ × ℕ))
having_candles [] = []
having_candles (g ∷ groups) =
    let rest = having_candles groups in if ltb 0 g.1.0 || ltb 0 g.1.1 then g ∷ rest else rest

abbrev pub token_option : String × (ℕ × ℕ) → TokenOption
token_option g = record { mint = g.0; candles_1m = g.1.0; candles_5m = g.1.1 }

-- COUNT(*) .. WHERE
unfoldable pub count_where : {R : Type 0} → (R → Bool) → List R → ℕ
count_where test [] = 0
count_where test (r ∷ rows) = let n = count_where test rows in if test r then suc n else n

unfoldable pub has_text : String → List String → Bool
has_text k [] = false
has_text k (j ∷ ks) = ite (text_discrete j k) true (has_text k ks)

-- COUNT(DISTINCT ..)
unfoldable pub count_distinct : List String → ℕ
count_distinct [] = 0
count_distinct (k ∷ ks) = let n = count_distinct ks in if has_text k ks then n else suc n

-- SELECT tx_signature .. WHERE mint = 'So11..'
unfoldable pub wsol_signatures : List BalanceDbRow → List String
wsol_signatures [] = []
wsol_signatures (r ∷ rows) =
    ite (text_discrete r.mint wsol_mint) (r.tx_signature ∷ wsol_signatures rows)
      (wsol_signatures rows)

-- One statement after another on a state.
abbrev pub continue : {S A B : Type 0} → Result A × S → (A → S → Result B × S) → Result B × S
continue (ok a, s) k = k a s
continue (err e, s) k = (err e, s)

infixl 5 ◌>>=◌
abbrev pub ◌>>=◌ : {S A B : Type 0} → (S → Result A × S) → (A → S → Result B × S) → S → Result B × S
◌>>=◌ m k s = continue (m s) k

module _ (f : Floats) where
  -- GROUP BY mint
  unfoldable pub count_candles :
      List (CandleDbRow f) → List (String × (ℕ × ℕ)) → List (String × (ℕ × ℕ))
  count_candles [] m = m
  count_candles (r ∷ rows) m =
      count_candles rows (insert r.mint (add_row r.interval_sec (or_zeros (get r.mint m))) m)

  -- ORDER BY .. DESC
  unfoldable pub token_groups :
      (group_order : List (String × (ℕ × ℕ)) → List (String × (ℕ × ℕ)))
      → List (CandleDbRow f)
      → List (String × (ℕ × ℕ))
  token_groups group_order rows =
      sort_ranked token_weight (having_candles (group_order (count_candles rows [])))

  abbrev pub of_interval : ℕ → CandleDbRow f → Bool
  of_interval interval_sec r = ite (ℕ_discrete r.interval_sec interval_sec) true false

  module _ (fault : ℕ → Bool) where
    unfoldable pub query_contention_summary :
        (group_order : List (String × ℕ) → List (String × ℕ)) → ℕ → ℕ → Action f ContentionSummary
    query_contention_summary group_order from_slot to_slot = do
      depth ←
          query f fault
            (λ d. ok (next_step (max_stored_step from_slot to_slot d.conn.tables.transactions)))
      top_conflicting_accounts ←
          query f fault
            (λ d. ok (top_accounts group_order from_slot to_slot d.conn.tables.account_locks))
      λ d. (ok (record { depth = depth; top_conflicting_accounts = top_conflicting_accounts }), d)

    unfoldable pub query_tokens :
        (group_order : List (String × (ℕ × ℕ)) → List (String × (ℕ × ℕ)))
        → Action f (List TokenOption)
    query_tokens group_order =
        query f fault (λ d. ok (map token_option (token_groups group_order d.candles)))

    unfoldable pub query_db_stats : Action f DbStats
    query_db_stats = do
      let count : (Database f → ℕ) → Action f ℕ = λ n. query f fault (λ d. ok (n d))
      blocks ← count (λ d. length d.conn.tables.blocks)
      transactions ← count (λ d. length d.conn.tables.transactions)
      failed_transactions ← count (λ d. count_where (λ r. r.failed) d.conn.tables.transactions)
      token_change_rows ← count (λ d. length d.conn.tables.token_balance_changes)
      distinct_mints ←
          count (λ d. count_distinct (map (λ r. r.mint) d.conn.tables.token_balance_changes))
      distinct_tx_with_balances ←
          count
            (λ d. count_distinct (map (λ r. r.tx_signature) d.conn.tables.token_balance_changes))
      tx_with_wsol ←
          count (λ d. count_distinct (wsol_signatures d.conn.tables.token_balance_changes))
      candles_1m ← count (λ d. count_where (of_interval 60) d.candles)
      candles_5m ← count (λ d. count_where (of_interval 300) d.candles)
      λ d. (
        ok (record {
          blocks = blocks;
          transactions = transactions;
          failed_transactions = failed_transactions;
          token_change_rows = token_change_rows;
          distinct_mints = distinct_mints;
          distinct_tx_with_balances = distinct_tx_with_balances;
          tx_with_wsol = tx_with_wsol;
          candles_1m = candles_1m;
          candles_5m = candles_5m;
        }),
        d,
      )
