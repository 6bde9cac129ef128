-- ===== src/Archive/Pass/Found.antt =====
-- The candles of all mints, and what the table holds after they are stored for one interval.
use mathlib.Core.Path.{subst}
use tenso.Prelude.{
  ℕ, suc, ◌≡◌, ◌≢◌, refl, sym, ap, ◌∙◌, String, Bool, Option, none, some, List, [], ◌∷◌, map, arith,
  if_pos, if_neg, Eq, All, Fresh, Distinct, text_discrete, text_eq,
}
use tenso.Prelude.Int.{ℤ, pos, ℤ_discrete}
use tenso.Prelude.Maps.{get, get_here, get_there}
use tenso.Prelude.Maps.{or_else}
use tenso.Floats.{Floats}
use tenso.Ohlcv.{
  InferredTrade, Candle, sort_trades, candle, mint_candles, each_mint, build_candles, group_mints,
  push_at,
}
use tenso.Ohlcv.Buckets.{Ascending}
use tenso.Ohlcv.Groups.{
  or_empty, or_empty-found, of_mint, in_bucket, get-by_mint, Distinct-push_at, Fresh-get,
}
use tenso.Ohlcv.Candles.{starts, mint_candles_full}
use tenso.Storage.{Result, ok, err}
use tenso.Archive.{Database, upsert_candles}
use tenso.Archive.Candles.{find_candle, at_start, find-upsert_candles}
use tenso.Archive.Pass.{after, resume, store_by_mint}

-- What the order of a map keeps: the keys stay distinct and hold the same values.
abbrev pub Reorders : {K V : Type 0} ⦃e : Eq K⦄ → (List (K × V) → List (K × V)) → Type 0
Reorders {K} {V} order =
    (m : List (K × V))
    → Distinct (map (λ c. c.0) m)
    → Distinct (map (λ c. c.0) (order m)) × ((k : K) → get k (order m) ≡ get k m)

pub after-ok :
    {S A B : Type 0} (x : Result A × S) (k : S → Result B × S) (b : B)
    → (after x k).0 ≡ ok b
    → (a : A) × (x.0 ≡ ok a) × (after x k ≡ k x.1)
after-ok (ok a, s) k b h = (a, refl, refl)
after-ok (err e, s) k b h = absurd (cc (h))

pub resume-ok :
    {S A B : Type 0} (x : Result A × S) (k : A → S → Option (Result B × S)) (b : B) (s' : S)
    → resume x k ≡ some (ok b, s')
    → (a : A) × (x.0 ≡ ok a) × (k a x.1 ≡ some (ok b, s'))
resume-ok (ok a, s) k b s' h = (a, refl, h)
resume-ok (err e, s) k b s' h =
    absurd (let h' : some (err e, s) ≡ some (ok b, s') = h in ground arith)

module _ (f : Floats) where
  -- The candle of just the trades of a mint in a bucket, in time order, if there are any.
  unfoldable pub bucket_candle : List (InferredTrade f) → String → ℕ → ℤ → Option (Candle f)
  bucket_candle trades mint interval_sec b =
      candle f b (in_bucket f (pos interval_sec) b (sort_trades f (of_mint f mint trades)))

  at_start_lem :
      (b : ℤ) (made : ℤ → Option (Candle f)) (cs : List (Candle f))
      → All (λ c. made c.bucket_start ≡ some c) cs
      → (Fresh b (starts f cs) → made b ≡ none)
      → at_start f b cs ≡ made b
  unfolding at_start
  at_start_lem b made [] a h = sym (h tt)
  at_start_lem b made (c ∷ cs) (p, a) h = elim (ℤ_discrete c.bucket_start b) [
    | yes q ↦ if_pos (ℤ_discrete c.bucket_start b) q _ _ ∙ sym p ∙ ap made q
    | no q ↦
        if_neg (ℤ_discrete c.bucket_start b) q _ _
        ∙ at_start_lem b made cs a (λ fresh. h (q, fresh))
  ]

  candle-empty : (b : ℤ) (ts : List (InferredTrade f)) → ts ≡ [] → candle f b ts ≡ none
  unfolding candle
  candle-empty b ts e = rw e refl

  at_start-mint_candles :
      (k : ℕ) (ts : List (InferredTrade f))
      → (cs : List (Candle f)) × (mint_candles f (pos (suc k)) ts ≡ some cs)
        × Ascending (starts f cs)
        × ((b : ℤ) → at_start f b cs ≡ candle f b (in_bucket f (pos (suc k)) b (sort_trades f ts)))
  at_start-mint_candles k ts =
      let (cs, ran, ascending, each, covered) = mint_candles_full f k ts in
      (
        cs,
        ran,
        ascending,
        λ b.
            at_start_lem b (λ x. candle f x (in_bucket f (pos (suc k)) x (sort_trades f ts))) cs
              each (λ fresh. candle-empty b _ (covered b fresh)),
      )

  -- What `each_mint` makes of the trades of a mint.
  abbrev Series :
      ℕ → String → List (String × List (InferredTrade f)) → List (String × List (Candle f)) → Type 0
  Series k mint m out =
      Ascending (starts f (or_empty (get mint out)))
      × ((b : ℤ)
          → at_start f b (or_empty (get mint out))
            ≡ candle f b (in_bucket f (pos (suc k)) b (sort_trades f (or_empty (get mint m)))))

  abbrev Made :
      ℕ → List (String × List (InferredTrade f)) → List (String × List (Candle f)) → Type 0
  Made k m out = (map (λ c. c.0) out ≡ map (λ c. c.0) m) × ((mint : String) → Series k mint m out)

  Made_each :
      (k : ℕ) (mint' : String) (ts : List (InferredTrade f)) (cs : List (Candle f))
      (m : List (String × List (InferredTrade f))) (out : List (String × List (Candle f)))
      → Ascending (starts f cs)
      → ((b : ℤ) → at_start f b cs ≡ candle f b (in_bucket f (pos (suc k)) b (sort_trades f ts)))
      → ((mint : String) → Series k mint m out)
      → (mint : String) → Series k mint ((mint', ts) ∷ m) ((mint', cs) ∷ out)
  Made_each k mint' ts cs m out ascending found held mint = elim (text_discrete mint' mint) [
    | yes p ↦ rw (get_here mint' mint cs out p, get_here mint' mint ts m p) (ascending, found)
    | no p ↦ rw (get_there mint' mint cs out p, get_there mint' mint ts m p) (held mint)
  ]

  each_mint_lem :
      (k : ℕ) (m : List (String × List (InferredTrade f)))
      → (out : List (String × List (Candle f))) × (each_mint f (pos (suc k)) m ≡ some out)
        × Made k m out
  unfolding each_mint get at_start in_bucket candle sort_trades
  each_mint_lem k [] = ([], refl, (refl, λ mint. (tt, λ b. refl)))
  each_mint_lem k ((mint', ts) ∷ m) =
      let (cs, ran, ascending, found) = at_start-mint_candles k ts in
      let (out, rest, (keys, held)) = each_mint_lem k m in
      (
        (mint', cs) ∷ out,
        rw (ran, each_mint, rest),
        (ap (◌∷◌ mint') keys, Made_each k mint' ts cs m out ascending found held),
      )

  Distinct-group_mints :
      (ts : List (InferredTrade f)) (m : List (String × List (InferredTrade f)))
      → Distinct (map (λ c. c.0) m)
      → Distinct (map (λ c. c.0) (group_mints f ts m))
  unfolding group_mints
  Distinct-group_mints [] m d = d
  Distinct-group_mints (t ∷ ts) m d =
      Distinct-group_mints ts (push_at t.mint t m) (Distinct-push_at t.mint t m d)

  -- The candles of all mints are built, for a positive interval.
  pub build_candles_lem :
      (k : ℕ) (trades : List (InferredTrade f))
      → (by_mint : List (String × List (Candle f))) × (build_candles f trades (pos (suc k))
          ≡ some by_mint)
        × Distinct (map (λ c. c.0) by_mint)
        × ((mint : String)
            → Ascending (starts f (or_empty (get mint by_mint)))
              × ((b : ℤ)
                  → at_start f b (or_empty (get mint by_mint))
                    ≡ bucket_candle trades mint (suc k) b))
  unfolding build_candles bucket_candle
  build_candles_lem k trades =
      let (out, ran, (keys, held)) = each_mint_lem k (group_mints f trades []) in
      (
        out,
        ran,
        rw keys (Distinct-group_mints trades [] tt),
        λ mint. (
          (held mint).0,
          λ b.
              (held mint).1 b
              ∙ ap (λ ts. candle f b (in_bucket f (pos (suc k)) b (sort_trades f ts)))
                  (ap or_empty (get-by_mint f mint trades)
                    ∙ or_empty-found (of_mint f mint trades)),
        ),
      )

  module _ (fault : ℕ → Bool) where
    pub store_by_mint_lem :
        (interval_sec : ℕ) (entries : List (String × List (Candle f))) (d : Database f)
        → Distinct (map (λ c. c.0) entries)
        → ((mint : String) → Ascending (starts f (or_empty (get mint entries))))
        → (store_by_mint f fault interval_sec entries d).0 ≡ ok tt
        → let after_it = (store_by_mint f fault interval_sec entries d).1.candles in
          ((mint : String) (b : ℤ)
            → find_candle f ((mint, interval_sec), b) after_it
              ≡ or_else
                  (at_start f b (or_empty (get mint entries)))
                  (find_candle f ((mint, interval_sec), b) d.candles))
          × ((series : String × ℕ) (b : ℤ)
              → interval_sec ≢ series.1
              → find_candle f (series, b) after_it ≡ find_candle f (series, b) d.candles)
    unfolding store_by_mint get at_start
    store_by_mint_lem interval_sec [] d dist asc h = (λ mint b. refl, λ series b ne. refl)
    store_by_mint_lem interval_sec ((mint', cs) ∷ rest) d (fresh, dist) asc h =
        let mid = upsert_candles f fault mint' interval_sec cs d in
        let (a, ran, skip) = after-ok mid (store_by_mint f fault interval_sec rest) tt h in
        let h' : (store_by_mint f fault interval_sec rest mid.1).0 ≡ ok tt =
          sym (ap (λ x. x.0) skip) ∙ h in
        let asc' : Ascending (starts f cs) =
          subst (λ o. Ascending (starts f (or_empty o))) (get_here mint' mint' cs rest refl)
            (asc mint') in
        let (mine, others) = find-upsert_candles f fault mint' interval_sec cs d asc' ran in
        let (later, kept) =
          store_by_mint_lem interval_sec rest mid.1 dist
            (λ mint. elim (text_discrete mint' mint) [
              | yes p ↦
                  subst (λ x. Ascending (starts f (or_empty (get x rest)))) p
                    (rw (Fresh-get mint' rest fresh) tt)
              | no p ↦
                  subst (λ o. Ascending (starts f (or_empty o))) (get_there mint' mint cs rest p)
                    (asc mint)
            ])
            h' in
        (
          λ mint b.
              ap (λ x. find_candle f ((mint, interval_sec), b) x.1.candles) skip
              ∙ later mint b
              ∙ elim (text_discrete mint' mint) [
                | yes p ↦
                    ap
                      (λ o.
                        or_else (at_start f b (or_empty o))
                          (find_candle f ((mint, interval_sec), b) mid.1.candles))
                      (ap (λ x. get x rest) (sym p) ∙ Fresh-get mint' rest fresh)
                    ∙ subst
                        (λ x.
                          find_candle f ((x, interval_sec), b) mid.1.candles
                          ≡ or_else (at_start f b cs)
                              (find_candle f ((x, interval_sec), b) d.candles))
                        p (mine b)
                    ∙ ap
                        (λ o.
                          or_else (at_start f b (or_empty o))
                            (find_candle f ((mint, interval_sec), b) d.candles))
                        (sym (get_here mint' mint cs rest p))
                | no p ↦
                    ap (or_else (at_start f b (or_empty (get mint rest))))
                      (others (mint, interval_sec) b (λ e. p (ap (λ x. x.0) e)))
                    ∙ ap
                        (λ o.
                          or_else (at_start f b (or_empty o))
                            (find_candle f ((mint, interval_sec), b) d.candles))
                        (sym (get_there mint' mint cs rest p))
              ],
          λ series b ne.
              ap (λ x. find_candle f (series, b) x.1.candles) skip
              ∙ kept series b ne
              ∙ others series b (λ e. ne (ap (λ x. x.1) e)),
        )
