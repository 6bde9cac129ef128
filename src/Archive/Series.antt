-- ===== src/Archive/Series.antt =====
-- The candles of a mint and an interval, found again by a query.
use mathlib.Core.Path.{subst}
use mathlib.Core.List.{append_assoc, append-nil}
use tenso.Prelude.{
  ℕ, ◌≡◌, ◌≢◌, refl, sym, ap, ◌∙◌, String, Bool, false, List, [], ◌∷◌, ◌++◌, ite, if_pos, if_neg,
  arith, All, All-intro, Fresh,
}
use tenso.Prelude.Int.{ℤ, ℤ_discrete}
use tenso.Floats.{Floats}
use tenso.Ohlcv.{Candle}
use tenso.Ohlcv.Buckets.{Ascending, ◌<ℤ◌}
use tenso.Ohlcv.Candles.{starts}
use tenso.Storage.{ok}
use tenso.Archive.{
  CandleDbRow, Database, series_key, candle_key, series_eq, pk_eq, put_candle, select_candles,
  insert_candle, sort_candles, upsert_candles, query_ohlcv,
}
use tenso.Archive.Candles.{row, put_all, below_irrefl, upsert_candles-ok}

module _ (f : Floats) where
  -- What an upsert does to the series that it writes.
  unfoldable put_in : Candle f → List (Candle f) → List (Candle f)
  put_in c [] = c ∷ []
  put_in c (d ∷ ds) = ite (ℤ_discrete d.bucket_start c.bucket_start) (c ∷ ds) (d ∷ put_in c ds)

  unfoldable put_in_all : List (Candle f) → List (Candle f) → List (Candle f)
  put_in_all [] ds = ds
  put_in_all (c ∷ cs) ds = put_in_all cs (put_in c ds)

  select-put_candle :
      (series : String × ℕ) (c : Candle f) (rows : List (CandleDbRow f))
      → select_candles f series (put_candle f (row f series c) rows)
        ≡ put_in c (select_candles f series rows)
  unfolding select_candles put_candle put_in
  select-put_candle series c [] = if_pos (series_eq.dec series series) refl _ _
  select-put_candle series c (r ∷ rows) =
      let ih = select-put_candle series c rows in
      elim (series_eq.dec (series_key f r) series) [
        | no p ↦
            ap (select_candles f series) (
              if_neg (pk_eq.dec (candle_key f r) (series, c.bucket_start))
                (λ e. p (ap (λ x. x.0) e)) _ _)
            ∙ if_neg (series_eq.dec (series_key f r) series) p _ _
            ∙ ih
            ∙ ap (put_in c) (sym (if_neg (series_eq.dec (series_key f r) series) p _ _))
        | yes p ↦ elim (ℤ_discrete r.candle.bucket_start c.bucket_start) [
          | yes q ↦
              ap (select_candles f series)
                (if_pos (pk_eq.dec (candle_key f r) (series, c.bucket_start)) (λ i. (p i, q i)) _ _)
              ∙ if_pos (series_eq.dec series series) refl _ _
              ∙ sym (if_pos (ℤ_discrete r.candle.bucket_start c.bucket_start) q _ _)
              ∙ ap (put_in c) (sym (if_pos (series_eq.dec (series_key f r) series) p _ _))
          | no q ↦
              ap (select_candles f series) (
                if_neg (pk_eq.dec (candle_key f r) (series, c.bucket_start))
                  (λ e. q (ap (λ x. x.1) e)) _ _)
              ∙ if_pos (series_eq.dec (series_key f r) series) p _ _
              ∙ ap (◌∷◌ r.candle) ih
              ∙ sym (if_neg (ℤ_discrete r.candle.bucket_start c.bucket_start) q _ _)
              ∙ ap (put_in c) (sym (if_pos (series_eq.dec (series_key f r) series) p _ _))
        ]
      ]

  select-put_all :
      (series : String × ℕ) (cs : List (Candle f)) (rows : List (CandleDbRow f))
      → select_candles f series (put_all f series cs rows)
        ≡ put_in_all cs (select_candles f series rows)
  unfolding put_all put_in_all
  select-put_all series [] rows = refl
  select-put_all series (c ∷ cs) rows =
      select-put_all series cs (put_candle f (row f series c) rows)
      ∙ ap (put_in_all cs) (select-put_candle series c rows)

  put_in-Fresh :
      (c : Candle f) (ds : List (Candle f))
      → Fresh c.bucket_start (starts f ds)
      → put_in c ds ≡ ds ++ c ∷ []
  unfolding put_in
  put_in-Fresh c [] a = refl
  put_in-Fresh c (d ∷ ds) (ne, a) =
      if_neg (ℤ_discrete d.bucket_start c.bucket_start) ne _ _ ∙ ap (◌∷◌ d) (put_in-Fresh c ds a)

  Fresh-snoc :
      (k : ℤ) (c : Candle f) (ds : List (Candle f))
      → Fresh k (starts f ds)
      → c.bucket_start ≢ k
      → Fresh k (starts f (ds ++ c ∷ []))
  Fresh-snoc k c [] fresh ne = (ne, tt)
  Fresh-snoc k c (d ∷ ds) (n, fresh) ne = (n, Fresh-snoc k c ds fresh ne)

  All-Fresh-snoc :
      (c : Candle f) (cs ds : List (Candle f))
      → All (λ j. c.bucket_start <ℤ j) (starts f cs)
      → All (λ e. Fresh e.bucket_start (starts f ds)) cs
      → All (λ e. Fresh e.bucket_start (starts f (ds ++ c ∷ []))) cs
  All-Fresh-snoc c [] ds a h = tt
  All-Fresh-snoc c (e ∷ cs) ds (l, a) (h, hs) = (
    Fresh-snoc e.bucket_start c ds h
        (λ p. below_irrefl f e.bucket_start (subst (λ x. x <ℤ e.bucket_start) p l)),
    All-Fresh-snoc c cs ds a hs,
  )

  put_in_all-Fresh :
      (cs ds : List (Candle f))
      → Ascending (starts f cs)
      → All (λ c. Fresh c.bucket_start (starts f ds)) cs
      → put_in_all cs ds ≡ ds ++ cs
  unfolding put_in_all
  put_in_all-Fresh [] ds a h = sym (append-nil ds)
  put_in_all-Fresh (c ∷ cs) ds (a, asc) (h, hs) =
      ap (put_in_all cs) (put_in-Fresh c ds h)
      ∙ put_in_all-Fresh cs (ds ++ c ∷ []) asc (All-Fresh-snoc c cs ds a hs)
      ∙ append_assoc ds (c ∷ []) cs

  insert_candle-first :
      (c : Candle f) (cs : List (Candle f))
      → Ascending (starts f (c ∷ cs))
      → insert_candle f c cs ≡ c ∷ cs
  unfolding insert_candle
  insert_candle-first c [] a = refl
  insert_candle-first c (d ∷ cs) ((l, a), asc) = ground arith

  sort_candles-Ascending : (cs : List (Candle f)) → Ascending (starts f cs) → sort_candles f cs ≡ cs
  unfolding sort_candles
  sort_candles-Ascending [] a = refl
  sort_candles-Ascending (c ∷ cs) a =
      ap (insert_candle f c) (sort_candles-Ascending cs a.1) ∙ insert_candle-first c cs a

  module _ (fault : ℕ → Bool) where
    -- If the table holds no candle of a mint and an interval, an `upsert_candles` of candles in
    -- strictly ascending order of their buckets succeeds, and the engine does not fail at the
    -- statement after it, then a `query_ohlcv` of that mint and interval returns just those
    -- candles.
    pub query_ohlcv-upsert_candles :
        (mint : String) (interval_sec : ℕ) (cs : List (Candle f)) (d : Database f)
        → Ascending (starts f cs)
        → select_candles f (mint, interval_sec) d.candles ≡ []
        → (upsert_candles f fault mint interval_sec cs d).0 ≡ ok tt
        → fault (upsert_candles f fault mint interval_sec cs d).1.conn.clock ≡ false
        → (query_ohlcv f fault mint interval_sec
            (upsert_candles f fault mint interval_sec cs d).1).0
          ≡ ok cs
    unfolding query_ohlcv
    query_ohlcv-upsert_candles mint interval_sec cs d a none_yet h quiet =
        rw
          (
            quiet,
            upsert_candles-ok f fault mint interval_sec cs d h,
            select-put_all (mint, interval_sec) cs d.candles,
            none_yet,
            put_in_all-Fresh cs [] a (All-intro _ cs (λ c. tt)),
          )
          (ap ok (sort_candles-Ascending cs a))
