-- ===== src/Ohlcv/Candles.antt =====
-- The candles of a mint: one for each bucket that has trades, in ascending order, over just the
-- trades of the bucket in time order.
use mathlib.Core.Path.{subst}
use tenso.Prelude.{
  some_path, ℕ, suc, ◌≡◌, refl, sym, ap, ◌∙◌, false, inl, inr, some, List, [], ◌∷◌, map, All,
  All-imp₂, Fresh, Distinct,
}
use tenso.Prelude.Int.{ℤ, pos}
use tenso.Prelude.Maps.{get}
use tenso.Floats.{Floats, FloatLaws}
use tenso.Ohlcv.{
  InferredTrade, Candle, Buckets, group_buckets, candle, candles, sort_trades, sort_keys,
  mint_candles, fold_max, fold_min, last_from, push_at, int_eq,
}
use tenso.Ohlcv.Buckets.{
  Ascending, Distinct-sorted, sort_keys-All, sort_keys_inv, bucket_start-positive,
}
use tenso.Ohlcv.Groups.{
  found, found-none, in_bucket, get-buckets, keys_found, Distinct-push_at, Fresh-get,
}

module _ (f : Floats) where
  -- The keys of the candles.
  abbrev pub starts : List (Candle f) → List ℤ
  starts = map (λ c. c.bucket_start)

  candle-found :
      (b : ℤ) (ts v : List (InferredTrade f))
      → found ts ≡ some v
      → (c : Candle f) × (candle f b v ≡ some c) × (candle f b ts ≡ some c) × (c.bucket_start ≡ b)
  unfolding candle
  candle-found b [] v h = absurd (cc (h))
  candle-found b (t ∷ ts) v h =
      let same : v ≡ t ∷ ts = cc (h) in (_, ap (candle f b) same, refl, refl)

  module _ (buckets : Buckets f) (members : ℤ → List (InferredTrade f)) where
    candles_lem :
        ((b : ℤ) → get b buckets ≡ found (members b))
        → (keys : List ℤ) → All (λ b. (v : List (InferredTrade f)) × (get b buckets ≡ some v)) keys
        → (cs : List (Candle f)) × (candles f keys buckets ≡ some cs)
          × (starts cs ≡ keys)
          × All (λ c. candle f c.bucket_start (members c.bucket_start) ≡ some c) cs
    unfolding candles
    candles_lem held [] a = ([], refl, refl, tt)
    candles_lem held (b ∷ keys) ((v, at), a) =
        let (c, ran, made, start) = candle-found b (members b) v (sym (held b) ∙ at) in
        let (cs, rest, keyed, all) = candles_lem held keys a in
        (
          c ∷ cs,
          rw (at, candles, ran, rest),
          cc (start, keyed),
          (ap (λ x. candle f x (members x)) start ∙ made, all),
        )

  group_buckets-positive :
      (k : ℕ) (ts : List (InferredTrade f)) (m : Buckets f)
      → Distinct (map (λ e. e.0) m)
      → (bs : Buckets f) × (group_buckets f (pos (suc k)) ts m ≡ some bs)
        × Distinct (map (λ e. e.0) bs)
  unfolding group_buckets
  group_buckets-positive k [] m d = (m, refl, d)
  group_buckets-positive k (t ∷ ts) m d =
      let (b, at) = bucket_start-positive t.block_time k in
      let (bs, ran, dist) =
        group_buckets-positive k ts (push_at b t m) (Distinct-push_at b t m d) in
      (bs, rw (at, group_buckets) ran, dist)

  -- The candles, all that is known of them.
  pub mint_candles_full :
      (k : ℕ) (mtrades : List (InferredTrade f))
      → (cs : List (Candle f)) × (mint_candles f (pos (suc k)) mtrades ≡ some cs)
        × Ascending (starts cs)
        × All
            (λ c.
              candle f c.bucket_start
                (in_bucket f (pos (suc k)) c.bucket_start (sort_trades f mtrades))
              ≡ some c)
            cs
        × ((b : ℤ) → Fresh b (starts cs) → in_bucket f (pos (suc k)) b (sort_trades f mtrades) ≡ [])
  unfolding mint_candles
  mint_candles_full k mtrades =
      let ts = sort_trades f mtrades in
      let (bs, ran, dist) = group_buckets-positive k ts [] tt in
      let held : (b : ℤ) → get b bs ≡ found (in_bucket f (pos (suc k)) b ts) =
        λ b. get-buckets f (pos (suc k)) b ts bs ran in
      let keys = map (λ e. e.0) bs in
      let (cs, made, keyed, all) =
        candles_lem bs (λ b. in_bucket f (pos (suc k)) b ts) held (sort_keys keys)
          (sort_keys-All _ keys (keys_found bs)) in
      (
        cs,
        rw (ran, mint_candles) made,
        rw keyed (Distinct-sorted keys dist),
        all,
        λ b fresh.
            found-none (in_bucket f (pos (suc k)) b ts)
              (sym (held b) ∙ Fresh-get b bs (sort_keys_inv _ keys (rw keyed at fresh))),
      )

  -- For a positive interval the candles of a mint are built without a panic. They stand in
  -- ascending order of their buckets, and each is the candle of just the mint's trades in its
  -- bucket, in time order.
  pub mint_candles_lem :
      (k : ℕ) (mtrades : List (InferredTrade f))
      → (cs : List (Candle f)) × (mint_candles f (pos (suc k)) mtrades ≡ some cs)
        × Ascending (starts cs)
        × All
            (λ c.
              candle f c.bucket_start
                (in_bucket f (pos (suc k)) c.bucket_start (sort_trades f mtrades))
              ≡ some c)
            cs
  mint_candles_lem k mtrades =
      let (cs, made, ascending, each, covered) = mint_candles_full k mtrades in
      (cs, made, ascending, each)

  -- A bucket that no candle starts holds no trade of the mint, for a positive interval.
  pub mint_candles-Fresh :
      (k : ℕ) (mtrades : List (InferredTrade f)) (b : ℤ) {cs : List (Candle f)}
      → mint_candles f (pos (suc k)) mtrades ≡ some cs
      → Fresh b (starts cs)
      → in_bucket f (pos (suc k)) b (sort_trades f mtrades) ≡ []
  mint_candles-Fresh k mtrades b {cs} ran fresh =
      let (cs', made, ascending, each, covered) = mint_candles_full k mtrades in
      let same : cs ≡ cs' = cc (ran, made) in covered b (subst (λ x. Fresh b (starts x)) same fresh)

-- How the figures of a candle lie, where all prices are finite.
module _ (f : Floats) (l : FloatLaws f) where
  open f use {F64, lt}
  open l use {IsFinite}

  -- `a` is at most `b`.
  abbrev pub AtMost : F64 → F64 → Type 0
  AtMost a b = lt b a ≡ false

  abbrev pub AllFinite : List (InferredTrade f) → Type 0
  AllFinite = All (λ t. IsFinite t.price_in_sol)

  fold_max_lem :
      (m : F64) (ts : List (InferredTrade f))
      → IsFinite m
      → AllFinite ts
      → IsFinite (fold_max f m ts)
        × AtMost m (fold_max f m ts)
        × All (λ t. AtMost t.price_in_sol (fold_max f m ts)) ts
  unfolding fold_max
  fold_max_lem m [] fm a = (fm, l.lt_irrefl m fm, tt)
  fold_max_lem m (t ∷ ts) fm (ft, a) =
      let p = t.price_in_sol in
      let (fn, mn, pn) = max_step in
      let (fin, le, all) = fold_max_lem (f.max m p) ts fn a in
      (
        fin,
        l.le_trans m (f.max m p) (fold_max f (f.max m p) ts) fm fn fin mn le,
        (l.le_trans p (f.max m p) (fold_max f (f.max m p) ts) ft fn fin pn le, all),
      )
    where
      max_step :
          IsFinite (f.max m t.price_in_sol)
          × AtMost m (f.max m t.price_in_sol)
          × AtMost t.price_in_sol (f.max m t.price_in_sol)
      max_step = elim (l.max_cases m t.price_in_sol fm ft) [
        | inl (e, le) ↦ rw e (fm, l.lt_irrefl m fm, le)
        | inr (e, le) ↦ rw e (ft, le, l.lt_irrefl t.price_in_sol ft)
      ]

  fold_min_lem :
      (m : F64) (ts : List (InferredTrade f))
      → IsFinite m
      → AllFinite ts
      → IsFinite (fold_min f m ts)
        × AtMost (fold_min f m ts) m
        × All (λ t. AtMost (fold_min f m ts) t.price_in_sol) ts
  unfolding fold_min
  fold_min_lem m [] fm a = (fm, l.lt_irrefl m fm, tt)
  fold_min_lem m (t ∷ ts) fm (ft, a) =
      let p = t.price_in_sol in
      let (fn, mn, pn) = min_step in
      let (fin, le, all) = fold_min_lem (f.min m p) ts fn a in
      (
        fin,
        l.le_trans (fold_min f (f.min m p) ts) (f.min m p) m fin fn fm le mn,
        (l.le_trans (fold_min f (f.min m p) ts) (f.min m p) p fin fn ft le pn, all),
      )
    where
      min_step :
          IsFinite (f.min m t.price_in_sol)
          × AtMost (f.min m t.price_in_sol) m
          × AtMost (f.min m t.price_in_sol) t.price_in_sol
      min_step = elim (l.min_cases m t.price_in_sol fm ft) [
        | inl (e, le) ↦ rw e (fm, l.lt_irrefl m fm, le)
        | inr (e, le) ↦ rw e (ft, le, l.lt_irrefl t.price_in_sol ft)
      ]

  last_from-All :
      (P : InferredTrade f → Type 0) (t : InferredTrade f) (ts : List (InferredTrade f))
      → P t
      → All P ts
      → P (last_from f t ts)
  unfolding last_from
  last_from-All P t [] p a = p
  last_from-All P t (u ∷ us) p (q, a) = last_from-All P u us q a

  -- Over finite prices every price of a bucket, the open and the close among them, lies between
  -- the low and the high of its candle.
  pub candle_bounds :
      (b : ℤ) (bt : List (InferredTrade f)) {c : Candle f}
      → AllFinite bt
      → candle f b bt ≡ some c
      → All (λ t. AtMost c.low t.price_in_sol × AtMost t.price_in_sol c.high) bt
        × (AtMost c.low c.open_price × AtMost c.open_price c.high)
        × (AtMost c.low c.close × AtMost c.close c.high)
  unfolding candle
  candle_bounds b [] a h = absurd (cc (h))
  candle_bounds b (t ∷ ts) {c} a h =
      let (_, _, highs) = fold_max_lem f.lowest (t ∷ ts) l.lowest_finite a in
      let (_, _, lows) = fold_min_lem f.highest (t ∷ ts) l.highest_finite a in
      let both =
        All-imp₂ _ _
          (λ (u : InferredTrade f).
            AtMost (fold_min f f.highest (t ∷ ts)) u.price_in_sol
            × AtMost u.price_in_sol (fold_max f f.lowest (t ∷ ts)))
          (t ∷ ts) (λ u lo hi. (lo, hi)) lows highs in
      subst
        (λ (c : Candle f).
          All (λ t. AtMost c.low t.price_in_sol × AtMost t.price_in_sol c.high) (t ∷ ts)
          × (AtMost c.low c.open_price × AtMost c.open_price c.high)
          × (AtMost c.low c.close × AtMost c.close c.high))
        (some_path h) (both, both.0, last_from-All _ t ts both.0 both.1)
