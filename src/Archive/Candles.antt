-- ===== src/Archive/Candles.antt =====
-- The candles of the table, found again by their keys.
use mathlib.Core.Path.{subst}
use tenso.Prelude.{
  ℕ, ◌≡◌, ◌≢◌, refl, ap, ◌∙◌, String, Bool, Option, none, some, List, [], ◌∷◌, ite, if_pos, if_neg,
  arith, All-imp, Fresh, Bool-cases, inl, inr,
}
use tenso.Prelude.Int.{ℤ, ℤ_discrete}
use tenso.Prelude.Maps.{or_else}
use tenso.Floats.{Floats}
use tenso.Ohlcv.{Candle}
use tenso.Ohlcv.Buckets.{Ascending, ◌<ℤ◌}
use tenso.Ohlcv.Candles.{starts}
use tenso.Storage.{ok, err, engine_error}
use tenso.Archive.{CandleDbRow, Database, candle_key, pk_eq, put_candle, tick, upsert_candles}

module _ (f : Floats) where
  -- The candle that the table holds under a key.
  unfoldable pub find_candle : (String × ℕ) × ℤ → List (CandleDbRow f) → Option (Candle f)
  find_candle key [] = none
  find_candle key (r ∷ rows) =
      ite (pk_eq.dec (candle_key f r) key) (some r.candle) (find_candle key rows)

  -- The first candle of a bucket.
  unfoldable pub at_start : ℤ → List (Candle f) → Option (Candle f)
  at_start b [] = none
  at_start b (c ∷ cs) = ite (ℤ_discrete c.bucket_start b) (some c) (at_start b cs)

  abbrev pub row : String × ℕ → Candle f → CandleDbRow f
  row series c = record { mint = series.0; interval_sec = series.1; candle = c }

  -- The table after all statements of an `upsert_candles`.
  unfoldable pub put_all :
      String × ℕ → List (Candle f) → List (CandleDbRow f) → List (CandleDbRow f)
  put_all series [] rows = rows
  put_all series (c ∷ cs) rows = put_all series cs (put_candle f (row series c) rows)

  find-put_candle :
      (key : (String × ℕ) × ℤ) (new : CandleDbRow f) (rows : List (CandleDbRow f))
      → find_candle key (put_candle f new rows)
        ≡ ite (pk_eq.dec (candle_key f new) key) (some new.candle) (find_candle key rows)
  unfolding find_candle put_candle
  find-put_candle key new [] = refl
  find-put_candle key new (r ∷ rows) = ground (arith, find-put_candle key new rows)

  find-put_all_other :
      (series series' : String × ℕ) (b : ℤ) (cs : List (Candle f)) (rows : List (CandleDbRow f))
      → series' ≢ series
      → find_candle (series, b) (put_all series' cs rows) ≡ find_candle (series, b) rows
  unfolding put_all
  find-put_all_other series series' b [] rows ne = refl
  find-put_all_other series series' b (c ∷ cs) rows ne =
      find-put_all_other series series' b cs (put_candle f (row series' c) rows) ne
      ∙ find-put_candle (series, b) (row series' c) rows
      ∙ if_neg (pk_eq.dec (series', c.bucket_start) (series, b)) (λ e. ne (ap (λ x. x.0) e)) _ _

  find-put_all-Fresh :
      (series : String × ℕ) (b : ℤ) (cs : List (Candle f)) (rows : List (CandleDbRow f))
      → Fresh b (starts f cs)
      → find_candle (series, b) (put_all series cs rows) ≡ find_candle (series, b) rows
  unfolding put_all
  find-put_all-Fresh series b [] rows fresh = refl
  find-put_all-Fresh series b (c ∷ cs) rows (ne, fresh) =
      find-put_all-Fresh series b cs (put_candle f (row series c) rows) fresh
      ∙ find-put_candle (series, b) (row series c) rows
      ∙ if_neg (pk_eq.dec (series, c.bucket_start) (series, b)) (λ e. ne (ap (λ x. x.1) e)) _ _

  pub below_irrefl : (b : ℤ) → b <ℤ b → ⊥
  below_irrefl b l = omega arith

  pub Ascending-Fresh :
      (c : Candle f) (cs : List (Candle f))
      → Ascending (starts f (c ∷ cs))
      → Fresh c.bucket_start (starts f cs)
  Ascending-Fresh c cs (a, h) =
      All-imp _ _ (starts f cs) (λ j l e. below_irrefl c.bucket_start (rw e at l)) a

  find-put_all :
      (series : String × ℕ) (b : ℤ) (cs : List (Candle f)) (rows : List (CandleDbRow f))
      → Ascending (starts f cs)
      → find_candle (series, b) (put_all series cs rows)
        ≡ or_else (at_start b cs) (find_candle (series, b) rows)
  unfolding put_all at_start
  find-put_all series b [] rows a = refl
  find-put_all series b (c ∷ cs) rows a = elim (ℤ_discrete c.bucket_start b) [
    | yes p ↦ rw (if_pos (ℤ_discrete c.bucket_start b) p) (
        find-put_all-Fresh series b cs (put_candle f (row series c) rows)
          (subst (λ x. Fresh x (starts f cs)) p (Ascending-Fresh c cs a))
        ∙ find-put_candle (series, b) (row series c) rows
        ∙ if_pos (pk_eq.dec (series, c.bucket_start) (series, b)) (ap (λ x. (series, x)) p) _ _)
    | no p ↦ rw (if_neg (ℤ_discrete c.bucket_start b) p) (
        find-put_all series b cs (put_candle f (row series c) rows) a.1
        ∙ ap (or_else (at_start b cs)) (
            find-put_candle (series, b) (row series c) rows
            ∙ if_neg (pk_eq.dec (series, c.bucket_start) (series, b)) (λ e. p (ap (λ x. x.1) e)) _
                _))
  ]

  module _ (fault : ℕ → Bool) where
    pub upsert_candles-ok :
        (mint : String) (interval_sec : ℕ) (cs : List (Candle f)) (d : Database f)
        → (upsert_candles f fault mint interval_sec cs d).0 ≡ ok tt
        → (upsert_candles f fault mint interval_sec cs d).1.candles
          ≡ put_all (mint, interval_sec) cs d.candles
    unfolding upsert_candles put_all
    upsert_candles-ok mint interval_sec [] d h = refl
    upsert_candles-ok mint interval_sec (c ∷ cs) d h = elim (Bool-cases (fault d.conn.clock)) [
      | inl e ↦ let h' : err engine_error ≡ ok tt = rw (e, upsert_candles) at h in absurd (cc (h'))
      | inr e ↦
          let next = record (tick f fault d) {
            candles = put_candle f (row (mint, interval_sec) c) d.candles;
          } in
          let h' : (upsert_candles f fault mint interval_sec cs next).0 ≡ ok tt =
            rw (e, upsert_candles) at h in
          rw (e, upsert_candles) (upsert_candles-ok mint interval_sec cs next h')
    ]

    -- An `upsert_candles` that succeeds, of candles in strictly ascending order of their buckets,
    -- changes the table at just its keys: under each key of its mint and interval stands the
    -- candle that was given for the bucket, or what stood there before if none was given, and
    -- every other key holds what it held.
    pub find-upsert_candles :
        (mint : String) (interval_sec : ℕ) (cs : List (Candle f)) (d : Database f)
        → Ascending (starts f cs)
        → (upsert_candles f fault mint interval_sec cs d).0 ≡ ok tt
        → let after = (upsert_candles f fault mint interval_sec cs d).1.candles in
          ((b : ℤ)
            → find_candle ((mint, interval_sec), b) after
              ≡ or_else (at_start b cs) (find_candle ((mint, interval_sec), b) d.candles))
          × ((series : String × ℕ) (b : ℤ)
              → (mint, interval_sec) ≢ series
              → find_candle (series, b) after ≡ find_candle (series, b) d.candles)
    find-upsert_candles mint interval_sec cs d a h =
        let same = upsert_candles-ok mint interval_sec cs d h in
        (
          λ b.
              ap (find_candle ((mint, interval_sec), b)) same
              ∙ find-put_all (mint, interval_sec) b cs d.candles a,
          λ series b ne.
              ap (find_candle (series, b)) same
              ∙ find-put_all_other series (mint, interval_sec) b cs d.candles ne,
        )
