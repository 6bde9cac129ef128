-- ===== src/Ohlcv.antt =====
-- crates/ohlcv/src/lib.rs: trades inferred from balance changes, and their candles.
-- `none` stands for a panic: a zero interval, or an index that is not there.
pub mod Groups
pub mod Trades
pub mod Buckets
pub mod Candles
use tenso.Prelude.{
  ℕ, String, Bool, true, false, Option, none, some, List, [], ◌∷◌, ◌++◌, map, if◌then◌else◌, ite,
  text_eq, text_discrete, Eq,
}
use tenso.Prelude.Int.{ℤ, ltb_ℤ, ◌*ℤ◌, wrap_i64, div_euclid, ℤ_discrete}
use tenso.Prelude.Maps.{get, insert}
use tenso.Floats.{Floats}

abbrev pub wsol_mint : String
wsol_mint = "So11111111111111111111111111111111111111112"

pub record TokenDelta : Type 0 where
  pub mint : String
  pub pre_amount : ℕ
  pub post_amount : ℕ
  pub decimals : ℕ

pub record TxSnapshot : Type 0 where
  pub signature : String
  pub block_time : ℤ
  pub token_deltas : List TokenDelta

-- tx.token_deltas.iter().find(|d| d.mint == WSOL_MINT)
unfoldable pub find_mint : String → List TokenDelta → Option TokenDelta
find_mint mint [] = none
find_mint mint (d ∷ ds) = ite (text_discrete d.mint mint) (some d) (find_mint mint ds)

abbrev pub same : Bool → Bool → Bool
same true b = b
same false true = false
same false false = true

instance abbrev pub int_eq : Eq ℤ
int_eq = record { dec = ℤ_discrete }

-- entry(key).or_default().push(x)
module _ {K V : Type 0} ⦃e : Eq K⦄ where
  unfoldable pub push_at : K → V → List (K × List V) → List (K × List V)
  push_at k x [] = (k, x ∷ []) ∷ []
  push_at k x ((j, xs) ∷ m) = ite (e.dec j k) ((j, xs ++ x ∷ []) ∷ m) ((j, xs) ∷ push_at k x m)

-- t.block_time.div_euclid(interval_seconds) * interval_seconds
unfoldable pub bucket_start : ℤ → ℤ → Option ℤ
bucket_start block_time interval_seconds = elim (div_euclid block_time interval_seconds) [
  | none ↦ none
  | some q ↦ some (wrap_i64 (q *ℤ interval_seconds))
]

-- bucket_keys.sort()
unfoldable pub insert_key : ℤ → List ℤ → List ℤ
insert_key k [] = k ∷ []
insert_key k (j ∷ keys) = if ltb_ℤ j k then j ∷ insert_key k keys else k ∷ j ∷ keys

unfoldable pub sort_keys : List ℤ → List ℤ
unfolding insert_key
sort_keys [] = []
sort_keys (k ∷ keys) = insert_key k (sort_keys keys)

module _ (f : Floats) where
  open f use {F64, from_u64, ten_powi, add, sub, div, abs, max, min, lt, eq}

  unfoldable pub delta_ui : TokenDelta → F64
  delta_ui d = div (sub (from_u64 d.post_amount) (from_u64 d.pre_amount)) (ten_powi d.decimals)

  pub record InferredTrade : Type 0 where
    pub signature : String
    pub block_time : ℤ
    pub mint : String
    pub price_in_sol : F64
    pub volume_sol : F64

  -- The body of the loop over `tx.token_deltas`: the trade that is pushed, if any.
  unfoldable pub infer_trade : TxSnapshot → F64 → TokenDelta → List InferredTrade
  infer_trade tx wsol_delta d =
      let token_delta = delta_ui d in
      let volume_sol = abs wsol_delta in
      ite (text_discrete d.mint wsol_mint) [] (
        if eq token_delta f.zero
        then []
        else if same (lt f.zero token_delta) (lt f.zero wsol_delta)
        then []
        else if lt volume_sol f.dust_threshold_sol
        then []
        else record {
          signature = tx.signature;
          block_time = tx.block_time;
          mint = d.mint;
          price_in_sol = div volume_sol (abs token_delta);
          volume_sol = volume_sol;
        }
          ∷ [])

  unfoldable pub infer_each : TxSnapshot → F64 → List TokenDelta → List InferredTrade
  infer_each tx wsol_delta [] = []
  infer_each tx wsol_delta (d ∷ ds) = infer_trade tx wsol_delta d ++ infer_each tx wsol_delta ds

  unfoldable pub infer_trades : TxSnapshot → List InferredTrade
  infer_trades tx = elim (find_mint wsol_mint tx.token_deltas) [
    | none ↦ []
    | some w ↦ if eq (delta_ui w) f.zero then [] else infer_each tx (delta_ui w) tx.token_deltas
  ]

  pub record Candle : Type 0 where
    pub bucket_start : ℤ
    pub open_price : F64
    pub high : F64
    pub low : F64
    pub close : F64
    pub volume : F64

  -- mtrades.sort_by_key(|t| t.block_time): stable, so later trades of a time stay behind
  unfoldable pub insert_trade : InferredTrade → List InferredTrade → List InferredTrade
  insert_trade t [] = t ∷ []
  insert_trade t (u ∷ us) =
      if ltb_ℤ u.block_time t.block_time then u ∷ insert_trade t us else t ∷ u ∷ us

  unfoldable pub sort_trades : List InferredTrade → List InferredTrade
  sort_trades [] = []
  sort_trades (t ∷ ts) = insert_trade t (sort_trades ts)

  -- by_mint
  unfoldable pub group_mints :
      List InferredTrade → List (String × List InferredTrade) → List (String × List InferredTrade)
  group_mints [] m = m
  group_mints (t ∷ ts) m = group_mints ts (push_at t.mint t m)

  abbrev pub Buckets : Type 0
  Buckets = List (ℤ × List InferredTrade)

  -- buckets
  unfoldable pub group_buckets : ℤ → List InferredTrade → Buckets → Option Buckets
  group_buckets interval [] m = some m
  group_buckets interval (t ∷ ts) m = elim (bucket_start t.block_time interval) [
    | none ↦ none
    | some b ↦ group_buckets interval ts (push_at b t m)
  ]

  unfoldable pub fold_max : F64 → List InferredTrade → F64
  fold_max m [] = m
  fold_max m (t ∷ ts) = fold_max (max m t.price_in_sol) ts

  unfoldable pub fold_min : F64 → List InferredTrade → F64
  fold_min m [] = m
  fold_min m (t ∷ ts) = fold_min (min m t.price_in_sol) ts

  unfoldable pub sum_volume : F64 → List InferredTrade → F64
  sum_volume v [] = v
  sum_volume v (t ∷ ts) = sum_volume (add v t.volume_sol) ts

  -- the last trade of a list that starts with `t`
  unfoldable pub last_from : InferredTrade → List InferredTrade → InferredTrade
  last_from t [] = t
  last_from t (u ∷ us) = last_from u us

  -- The candle of a bucket; an empty bucket panics at `prices[0]`.
  unfoldable pub candle : ℤ → List InferredTrade → Option Candle
  candle b [] = none
  candle b (t ∷ ts) = some (record {
    bucket_start = b;
    open_price = t.price_in_sol;
    high = fold_max f.lowest (t ∷ ts);
    low = fold_min f.highest (t ∷ ts);
    close = (last_from t ts).price_in_sol;
    volume = sum_volume f.sum_start (t ∷ ts);
  })

  unfoldable pub candles : List ℤ → Buckets → Option (List Candle)
  candles [] buckets = some []
  candles (b ∷ keys) buckets = elim (get b buckets) [
    | none ↦ none
    | some bt ↦ elim (candle b bt) [
      | none ↦ none
      | some c ↦ elim (candles keys buckets) [ none ↦ none | some cs ↦ some (c ∷ cs) ]
    ]
  ]

  -- One round of the loop over `by_mint`.
  unfoldable pub mint_candles : ℤ → List InferredTrade → Option (List Candle)
  mint_candles interval mtrades = elim (group_buckets interval (sort_trades mtrades) []) [
    | none ↦ none
    | some buckets ↦ candles (sort_keys (map (λ e. e.0) buckets)) buckets
  ]

  unfoldable pub each_mint :
      ℤ → List (String × List InferredTrade) → Option (List (String × List Candle))
  each_mint interval [] = some []
  each_mint interval ((mint, mtrades) ∷ m) = elim (mint_candles interval mtrades) [
    | none ↦ none
    | some cs ↦ elim (each_mint interval m) [ none ↦ none | some rest ↦ some ((mint, cs) ∷ rest) ]
  ]

  unfoldable pub build_candles : List InferredTrade → ℤ → Option (List (String × List Candle))
  build_candles trades interval_seconds = each_mint interval_seconds (group_mints trades [])
