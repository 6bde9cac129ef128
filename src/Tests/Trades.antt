-- ===== src/Tests/Trades.antt =====
-- A swap and the candles of its mint, over whole numbers in place of `f64`.
use tenso.Prelude.{
  ℕ, suc, ◌≡◌, refl, sym, ◌⊎◌, ◌*◌, ◌/◌, ◌^◌, Bool, true, false, some, List, [], ◌∷◌, ite,
  if◌then◌else◌, not, ltb, arith, All, get_elem?, inl, inr, max, min,
}
use tenso.Prelude.Int.{ℤ, pos, negsuc, neg, ◌+ℤ◌, ◌*ℤ◌, ltb_ℤ, ℤ_discrete}
use tenso.Floats.{Floats, FloatLaws}
use tenso.Ohlcv.{
  wsol_mint, TokenDelta, TxSnapshot, InferredTrade, Candle, find_mint, delta_ui, infer_trades,
  bucket_start, sort_keys, sort_trades, candle, mint_candles,
}
use tenso.Ohlcv.Trades.{IsSwap, FromSwap, swap_trade, infer_trades-All, infer_trades_complete}
use tenso.Ohlcv.Candles.{AtMost, candle_bounds}

abbrev quotient : ℤ → ℤ → ℤ
quotient (pos a) (pos b) = pos (a / b)
quotient (pos a) (negsuc b) = neg (pos (a / suc b))
quotient (negsuc a) (pos b) = neg (pos (suc a / b))
quotient (negsuc a) (negsuc b) = pos (suc a / suc b)

abbrev magnitude : ℤ → ℤ
magnitude (pos a) = pos a
magnitude (negsuc a) = pos (suc a)

abbrev equal : ℤ → ℤ → Bool
equal a b = ite (ℤ_discrete a b) true false

abbrev pub whole : Floats
whole = record {
  F64 = ℤ;
  from_u64 = pos;
  ten_powi = λ n. pos (10 ^ n);
  add = ◌+ℤ◌;
  sub = λ a b. a +ℤ neg b;
  mul = ◌*ℤ◌;
  div = quotient;
  abs = magnitude;
  max = λ a b. if ltb_ℤ a b then b else a;
  min = λ a b. if ltb_ℤ b a then b else a;
  lt = ltb_ℤ;
  le = λ a b. not (ltb_ℤ b a);
  eq = equal;
  zero = pos 0;
  one = pos 1;
  dust_threshold_sol = pos 1;
  lowest = negsuc 999999;
  highest = pos 1000000;
  sum_start = pos 0;
}

-- The order of the whole numbers, as `ltb_ℤ` tests it.
lt_trans_ℤ : (a b c : ℤ) → ltb_ℤ b a ≡ false → ltb_ℤ c b ≡ false → ltb_ℤ c a ≡ false
lt_trans_ℤ a b c h k = ground arith

lt_irrefl_ℤ : (a : ℤ) → ltb_ℤ a a ≡ false
lt_irrefl_ℤ a = ground arith

lt_asym_ℤ : (a b : ℤ) → ltb_ℤ a b ≡ true → ltb_ℤ b a ≡ false
lt_asym_ℤ a b h = ground arith

either :
    (a b c : ℤ) (t : Bool) → (if t then b else a) ≡ c → (t ≡ true) × (c ≡ b) ⊎ (t ≡ false) × (c ≡ a)
either a b c true h = inl (refl, sym h)
either a b c false h = inr (refl, sym h)

abbrev whole_laws : FloatLaws whole
whole_laws = record {
  IsFinite = λ a. (ltb_ℤ a (negsuc 999999) ≡ false) × (ltb_ℤ (pos 1000000) a ≡ false);
  lowest_finite = (refl, refl);
  highest_finite = (refl, refl);
  lt_irrefl = λ a fa. lt_irrefl_ℤ a;
  le_trans = λ a b c fa fb fc ab bc. lt_trans_ℤ a b c ab bc;
  lowest_le = λ a fa. fa.0;
  le_highest = λ a fa. fa.1;
  max_cases = λ a b fa fb. elim (either a b _ (ltb_ℤ a b) refl) [
    | inl (t, e) ↦ inr (e, lt_asym_ℤ a b t)
    | inr (t, e) ↦ inl (e, t)
  ];
  min_cases = λ a b fa fb. elim (either a b _ (ltb_ℤ b a) refl) [
    | inl (t, e) ↦ inr (e, lt_asym_ℤ b a t)
    | inr (t, e) ↦ inl (e, t)
  ];
}

-- Two tokens sold for two wrapped SOL, and a third leg that moves the same way as the SOL.
abbrev sol_leg : TokenDelta
sol_leg = record { mint = wsol_mint; pre_amount = 0; post_amount = 6; decimals = 0 }

abbrev sold : TokenDelta
sold = record { mint = "MINT"; pre_amount = 5; post_amount = 3; decimals = 0 }

abbrev bought : TokenDelta
bought = record { mint = "OTHER"; pre_amount = 0; post_amount = 3; decimals = 0 }

abbrev swap : TxSnapshot
swap = record {
  signature = "sig";
  block_time = pos 65;
  token_deltas = sold ∷ sol_leg ∷ bought ∷ [];
}

abbrev pub trade : ℤ → ℤ → InferredTrade whole
trade time price = record {
  signature = "sig";
  block_time = time;
  mint = "MINT";
  price_in_sol = price;
  volume_sol = pos 6;
}

swap_trades : infer_trades whole swap ≡ trade (pos 65) (pos 3) ∷ []
unfolding infer_trades find_mint tenso.Prelude.text_discrete ℤ_discrete delta_ui ◌+ℤ◌
    tenso.Ohlcv.infer_each tenso.Ohlcv.infer_trade
swap_trades = refl

sold-IsSwap : IsSwap whole swap sol_leg sold
unfolding delta_ui ℤ_discrete ◌+ℤ◌
sold-IsSwap = record {
  other_mint = cc;
  sol_moves = refl;
  token_moves = refl;
  opposite = refl;
  no_dust = refl;
}

infer_trades-All_example : All (FromSwap whole swap) (infer_trades whole swap)
infer_trades-All_example = infer_trades-All whole swap

infer_trades_complete_example :
    (n : ℕ) × (get_elem? (infer_trades whole swap) n ≡ some (swap_trade whole swap sol_leg sold))
unfolding find_mint tenso.Prelude.text_discrete
infer_trades_complete_example =
    infer_trades_complete whole swap sol_leg sold 0 refl refl sold-IsSwap

abbrev times : List ℤ
times = pos 60 ∷ negsuc 59 ∷ pos 0 ∷ []

abbrev trades : List (InferredTrade whole)
trades = trade (pos 70) (pos 3) ∷ trade (pos 65) (pos 5) ∷ trade (pos 61) (pos 4) ∷ []

abbrev minute : Candle whole
minute = record {
  bucket_start = pos 60;
  open_price = pos 3;
  high = pos 5;
  low = pos 3;
  close = pos 4;
  volume = pos 18;
}

minute-candle : candle whole (pos 60) trades ≡ some minute
unfolding candle tenso.Ohlcv.fold_max tenso.Ohlcv.fold_min tenso.Ohlcv.last_from
    tenso.Ohlcv.sum_volume ◌+ℤ◌
minute-candle = refl

candle_bounds_example :
    All
      (λ t.
        AtMost whole whole_laws minute.low t.price_in_sol
        × AtMost whole whole_laws t.price_in_sol minute.high)
      trades
    × (AtMost whole whole_laws minute.low minute.open_price
        × AtMost whole whole_laws minute.open_price minute.high)
    × (AtMost whole whole_laws minute.low minute.close
        × AtMost whole whole_laws minute.close minute.high)
candle_bounds_example =
    candle_bounds whole whole_laws (pos 60) trades
      ((refl, refl), ((refl, refl), ((refl, refl), tt))) minute-candle

trades_candles :
    mint_candles whole (pos 60) trades
    ≡ some (record minute { open_price = pos 4; close = pos 3 } ∷ [])
unfolding mint_candles tenso.Ohlcv.group_buckets sort_trades tenso.Ohlcv.insert_trade bucket_start
    tenso.Prelude.Int.div_euclid tenso.Ohlcv.candles sort_keys tenso.Ohlcv.push_at ℤ_discrete
    tenso.Prelude.Int.◌*ℤ◌ tenso.Prelude.Maps.get candle tenso.Ohlcv.fold_max tenso.Ohlcv.fold_min
    tenso.Ohlcv.last_from tenso.Ohlcv.sum_volume ◌+ℤ◌
trades_candles = refl
