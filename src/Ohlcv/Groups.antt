-- ===== src/Ohlcv/Groups.antt =====
-- The two groupings: a map entry holds, in order, the elements that were pushed under its key.
use mathlib.Core.List.{append-nil, append_assoc}
use tenso.Prelude.{
  ◌≡◌, ◌≢◌, refl, sym, ap, ◌∙◌, String, Option, none, some, List, [], ◌∷◌, ◌++◌, map, ite, if_pos,
  if_neg, Eq, arith, All, All-imp, Fresh, Distinct, Option-cases, inl, inr, text_discrete, text_eq,
}
use tenso.Prelude.Int.{ℤ, ℤ_discrete}
use tenso.Prelude.Maps.{get}
use tenso.Floats.{Floats}
use tenso.Ohlcv.{InferredTrade, push_at, group_mints, group_buckets, bucket_start, int_eq, Buckets}

abbrev pub or_empty {ℓ} : {V : Type ℓ} → Option (List V) → List V
or_empty none = []
or_empty (some xs) = xs

-- An entry is there as soon as something was pushed.
abbrev pub found {ℓ} : {V : Type ℓ} → List V → Option (List V)
found [] = none
found (x ∷ xs) = some (x ∷ xs)

module _ {K V : Type 0} ⦃e : Eq K⦄ where
  pub get-push_at :
      (k j : K) (x : V) (m : List (K × List V))
      → get j (push_at k x m) ≡ ite (e.dec k j) (some (or_empty (get j m) ++ x ∷ [])) (get j m)
  unfolding get push_at
  get-push_at k j x [] = ground arith
  get-push_at k j x ((i, xs) ∷ m) = ground (arith, get-push_at k j x m)

found-snoc {ℓ} : {V : Type ℓ} (xs : List V) (x : V) → some (xs ++ x ∷ []) ≡ found (xs ++ x ∷ [])
found-snoc [] x = refl
found-snoc (y ∷ xs) x = refl

pub found-none {ℓ} : {V : Type ℓ} (xs : List V) → found xs ≡ none → xs ≡ []
found-none [] h = refl
found-none (x ∷ xs) h = absurd (cc (h))

pub or_empty-found {ℓ} : {V : Type ℓ} (xs : List V) → or_empty (found xs) ≡ xs
or_empty-found [] = refl
or_empty-found (x ∷ xs) = refl

module _ (f : Floats) where
  -- The trades of a mint, in order.
  unfoldable pub of_mint : String → List (InferredTrade f) → List (InferredTrade f)
  of_mint mint [] = []
  of_mint mint (t ∷ ts) = ite (text_discrete t.mint mint) (t ∷ of_mint mint ts) (of_mint mint ts)

  get-group_mints :
      (mint : String) (ts : List (InferredTrade f)) (m : List (String × List (InferredTrade f)))
      (xs : List (InferredTrade f))
      → get mint m ≡ found xs
      → get mint (group_mints f ts m) ≡ found (xs ++ of_mint mint ts)
  unfolding group_mints of_mint
  get-group_mints mint [] m xs h = h ∙ ap found (sym (append-nil xs))
  get-group_mints mint (t ∷ ts) m xs h = elim (text_discrete t.mint mint) [
    | yes p ↦ rw (if_pos (text_discrete t.mint mint) p) (
        get-group_mints mint ts (push_at t.mint t m) (xs ++ t ∷ []) (
          get-push_at t.mint mint t m
          ∙ if_pos (text_discrete t.mint mint) p _ _
          ∙ ap (λ ys. some (ys ++ t ∷ [])) (ap or_empty h ∙ or_empty-found xs)
          ∙ found-snoc xs t)
        ∙ ap found (append_assoc xs (t ∷ []) (of_mint mint ts)))
    | no p ↦ rw (if_neg (text_discrete t.mint mint) p) (
        get-group_mints mint ts (push_at t.mint t m) xs
          (get-push_at t.mint mint t m ∙ if_neg (text_discrete t.mint mint) p _ _ ∙ h))
  ]

  -- A mint's entry in `by_mint`.
  pub get-by_mint :
      (mint : String) (ts : List (InferredTrade f))
      → get mint (group_mints f ts []) ≡ found (of_mint mint ts)
  unfolding get
  get-by_mint mint ts = get-group_mints mint ts [] [] refl

  -- The trades in a bucket, in order.
  unfoldable pub in_bucket : ℤ → ℤ → List (InferredTrade f) → List (InferredTrade f)
  in_bucket interval b [] = []
  in_bucket interval b (t ∷ ts) = elim (bucket_start t.block_time interval) [
    | none ↦ in_bucket interval b ts
    | some c ↦ ite (ℤ_discrete c b) (t ∷ in_bucket interval b ts) (in_bucket interval b ts)
  ]

  get-group_buckets :
      (interval b : ℤ) (ts : List (InferredTrade f)) (m bs : Buckets f)
      (xs : List (InferredTrade f))
      → get b m ≡ found xs
      → group_buckets f interval ts m ≡ some bs
      → get b bs ≡ found (xs ++ in_bucket interval b ts)
  unfolding group_buckets in_bucket
  get-group_buckets interval b [] m bs xs h g =
      let same : bs ≡ m = cc (g) in ap (get b) same ∙ h ∙ ap found (sym (append-nil xs))
  get-group_buckets interval b (t ∷ ts) m bs xs h g =
      elim (Option-cases (bucket_start t.block_time interval)) [
        | inl e ↦ absurd (let gone : none ≡ some bs = rw (e, group_buckets) at g in cc (gone))
        | inr (c, e) ↦
            let rest : group_buckets f interval ts (push_at c t m) ≡ some bs =
              rw (e, group_buckets) at g in
            elim (ℤ_discrete c b) [
              | yes p ↦
                  rw (e, in_bucket, if_pos (ℤ_discrete c b) p)
                    (get-group_buckets interval b ts (push_at c t m) bs (xs ++ t ∷ [])
                        (get-push_at c b t m
                          ∙ if_pos (ℤ_discrete c b) p _ _
                          ∙ ap (λ ys. some (ys ++ t ∷ [])) (ap or_empty h ∙ or_empty-found xs)
                          ∙ found-snoc xs t)
                        rest
                      ∙ ap found (append_assoc xs (t ∷ []) (in_bucket interval b ts)))
              | no p ↦
                  rw (e, in_bucket, if_neg (ℤ_discrete c b) p)
                    (get-group_buckets interval b ts (push_at c t m) bs xs
                      (get-push_at c b t m ∙ if_neg (ℤ_discrete c b) p _ _ ∙ h) rest)
            ]
      ]

  -- An entry of `buckets`.
  pub get-buckets :
      (interval b : ℤ) (ts : List (InferredTrade f)) (bs : Buckets f)
      → group_buckets f interval ts [] ≡ some bs
      → get b bs ≡ found (in_bucket interval b ts)
  unfolding get
  get-buckets interval b ts bs g = get-group_buckets interval b ts [] bs [] refl g

-- Each key of a map has an entry.
module _ {K V : Type 0} ⦃e : Eq K⦄ where
  pub keys_found : (m : List (K × V)) → All (λ k. (v : V) × (get k m ≡ some v)) (map (λ c. c.0) m)
  unfolding get
  keys_found [] = tt
  keys_found ((k, v) ∷ m) = (
    (v, if_pos (e.dec k k) refl (some v) (get k m)),
    All-imp _ _ (map (λ c. c.0) m)
        (λ j h. elim (e.dec k j) [
          | yes p ↦ (v, if_pos (e.dec k j) p (some v) (get j m))
          | no p ↦ (h.0, if_neg (e.dec k j) p (some v) (get j m) ∙ h.1)
        ])
        (keys_found m),
  )

module _ {K V : Type 0} ⦃e : Eq K⦄ where
  Fresh-push_at :
      (k j : K) (x : V) (m : List (K × List V))
      → k ≢ j
      → Fresh j (map (λ c. c.0) m)
      → Fresh j (map (λ c. c.0) (push_at k x m))
  unfolding push_at
  Fresh-push_at k j x [] ne f = (ne, tt)
  Fresh-push_at k j x ((i, xs) ∷ m) ne (p, f) = elim (e.dec i k) [
    | yes q ↦ rw (if_pos (e.dec i k) q) (p, f)
    | no q ↦ rw (if_neg (e.dec i k) q) (p, Fresh-push_at k j x m ne f)
  ]

  -- No key of a grouping stands twice.
  pub Distinct-push_at :
      (k : K) (x : V) (m : List (K × List V))
      → Distinct (map (λ c. c.0) m)
      → Distinct (map (λ c. c.0) (push_at k x m))
  unfolding push_at
  Distinct-push_at k x [] d = (tt, tt)
  Distinct-push_at k x ((i, xs) ∷ m) (f, d) = elim (e.dec i k) [
    | yes q ↦ rw (if_pos (e.dec i k) q) (f, d)
    | no q ↦
        rw (if_neg (e.dec i k) q)
          (Fresh-push_at k i x m (λ r. q (sym r)) f, Distinct-push_at k x m d)
  ]

  pub Fresh-get : (j : K) (m : List (K × V)) → Fresh j (map (λ c. c.0) m) → get j m ≡ none
  unfolding get
  Fresh-get j [] f = refl
  Fresh-get j ((k, v) ∷ m) (ne, f) = if_neg (e.dec k j) ne (some v) (get j m) ∙ Fresh-get j m f
