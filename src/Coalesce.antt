-- ===== src/Coalesce.antt =====
-- The netting of balance changes by key, written out twice in the repository:
-- `coalesce_token_deltas` (crates/ingest-core/src/rpc_client.rs) nets by mint, and
-- `coalesce_token_balance_rows` (crates/storage/src/repository.rs) by signature and mint.
-- The `i128` sums are unbounded here: 2^63 rows would be needed to leave the range of `i128`.
-- The casts to `u64` wrap.
pub mod Loop
pub mod Net
pub mod Idem
use tenso.Prelude.{
  ℕ, zero, suc, ◌^◌, ◌%◌, String, Option, none, some, List, [], ◌∷◌, ◌++◌, map, Eq, text_eq,
  pair_eq,
}
use tenso.Prelude.Int.{ℤ, pos, negsuc, sub_ℕ, ◌+ℤ◌}
use tenso.Prelude.Maps.{get, insert}
use tenso.Types.{TokenBalanceChange}

-- A row: what the balance was and became, and the decimals, under a key.
pub record Change (K : Type 0) : Type 0 where
  pub key : K
  pub pre : ℕ
  pub post : ℕ
  pub decimals : ℕ

-- d.post_amount as i128 - d.pre_amount as i128
unfoldable pub delta : {K : Type 0} → Change K → ℤ
delta d = sub_ℕ d.post d.pre

-- n as u64
abbrev pub as_u64 : ℕ → ℕ
as_u64 n = n % 2 ^ 64

-- The last step: a zero net is dropped, any other is shown on one side.
abbrev pub net_row : {K : Type 0} → K → ℤ → ℕ → List (Change K)
net_row key (pos zero) decimals = []
net_row key (pos (suc n)) decimals =
    record { key = key; pre = 0; post = as_u64 (suc n); decimals = decimals } ∷ []
net_row key (negsuc n) decimals =
    record { key = key; pre = as_u64 (suc n); post = 0; decimals = decimals } ∷ []

abbrev pub found_row : {K : Type 0} → K → Option (ℤ × ℕ) → List (Change K)
found_row key none = []
found_row key (some (n, decimals)) = net_row key n decimals

-- `net` and `order`
abbrev pub Nets : Type 0 → Type 0
Nets K = List (K × (ℤ × ℕ)) × List K

module _ {K : Type 0} ⦃e : Eq K⦄ where
  -- One round of the loop over the rows.
  unfoldable pub net_change : Change K → Nets K → Nets K
  net_change d (net, order) = elim (get d.key net) [
    | some (n, decimals) ↦ (insert d.key (n +ℤ delta d, decimals) net, order)
    | none ↦ (insert d.key (delta d, d.decimals) net, order ++ d.key ∷ [])
  ]

  unfoldable pub net_changes : List (Change K) → Nets K → Nets K
  net_changes [] s = s
  net_changes (d ∷ ds) s = net_changes ds (net_change d s)

  -- order.into_iter().filter_map(..)
  unfoldable pub emit : List K → List (K × (ℤ × ℕ)) → List (Change K)
  emit [] net = []
  emit (key ∷ order) net = found_row key (get key net) ++ emit order net

  unfoldable pub coalesce : List (Change K) → List (Change K)
  coalesce ds = let (net, order) = net_changes ds ([], []) in emit order net

abbrev pub from_delta : TokenBalanceChange → Change String
from_delta d = record {
  key = d.mint;
  pre = d.pre_amount;
  post = d.post_amount;
  decimals = d.decimals;
}

abbrev pub to_delta : Change String → TokenBalanceChange
to_delta c = record {
  mint = c.key;
  pre_amount = c.pre;
  post_amount = c.post;
  decimals = c.decimals;
}

unfoldable pub coalesce_token_deltas : List TokenBalanceChange → List TokenBalanceChange
coalesce_token_deltas deltas = map to_delta (coalesce (map from_delta deltas))

-- (tx_signature, mint, pre_amount, post_amount, decimals)
abbrev pub TokenBalanceRow : Type 0
TokenBalanceRow = String × String × ℕ × ℕ × ℕ

abbrev pub from_row : TokenBalanceRow → Change (String × String)
from_row (sig, mint, pre, post, decimals) = record {
  key = (sig, mint);
  pre = pre;
  post = post;
  decimals = decimals;
}

abbrev pub to_row : Change (String × String) → TokenBalanceRow
to_row c = (c.key.0, c.key.1, c.pre, c.post, c.decimals)

unfoldable pub coalesce_token_balance_rows : List TokenBalanceRow → List TokenBalanceRow
coalesce_token_balance_rows rows = map to_row (coalesce (map from_row rows))
