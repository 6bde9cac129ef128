-- ===== src/Archive/Ranking.antt =====
-- GROUP BY and ORDER BY .. DESC, as the queries use them: rows are counted under a key, the groups
-- are put in descending order, and the first few are kept.
use mathlib.Core.Path.{subst}
use tenso.Prelude.{
  some_path, ℕ, zero, suc, ◌≤◌, ◌≡◌, ◌≢◌, refl, sym, ap, ◌∙◌, none, some, List, [], ◌∷◌, map,
  if_pos, if_neg, All-imp₂, if◌then◌else◌, ite, ltb, length, take, arith, Eq, All, All-imp, Fresh,
  Distinct, Bool-cases, inl, inr,
}
use tenso.Prelude.Maps.{get, insert, get_here, get_there}

none-some : {A : Type 0} {x : A} → none ≡ some x → ⊥
none-some h = cc (h)

take-Fresh :
    {K V : Type 0} (n : ℕ) (xs : List (K × V)) (k : K)
    → Fresh k (map (λ c. c.0) xs)
    → All (λ y. y.0 ≢ k) (take n xs)
take-Fresh zero xs k f = tt
take-Fresh (suc n) [] k f = tt
take-Fresh (suc n) (x ∷ xs) k (ne, f) = (ne, take-Fresh n xs k f)

-- One entry for each key, folded over its rows: GROUP BY.
module _ {K V : Type 0} ⦃e : Eq K⦄ where
  Fresh-insert :
      (k j : K) (v : V) (m : List (K × V))
      → k ≢ j
      → Fresh j (map (λ c. c.0) m)
      → Fresh j (map (λ c. c.0) (insert k v m))
  unfolding insert
  Fresh-insert k j v [] ne f = (ne, tt)
  Fresh-insert k j v ((i, w) ∷ m) ne (n, f) = elim (e.dec i k) [
    | yes p ↦ rw (if_pos (e.dec i k) p) (ne, f)
    | no p ↦ rw (if_neg (e.dec i k) p) (n, Fresh-insert k j v m ne f)
  ]

  pub Distinct-insert :
      (k : K) (v : V) (m : List (K × V))
      → Distinct (map (λ c. c.0) m)
      → Distinct (map (λ c. c.0) (insert k v m))
  unfolding insert
  Distinct-insert k v [] d = (tt, tt)
  Distinct-insert k v ((i, w) ∷ m) (f, d) = elim (e.dec i k) [
    | yes p ↦ rw (if_pos (e.dec i k) p) (rw p at f, d)
    | no p ↦
        rw (if_neg (e.dec i k) p) (Fresh-insert k i v m (λ q. p (sym q)) f, Distinct-insert k v m d)
  ]

module _ {K V : Type 0} (weight : V → ℕ) where
  -- ORDER BY weight DESC; groups of the same weight stay in the order in which they come.
  unfoldable pub insert_ranked : K × V → List (K × V) → List (K × V)
  insert_ranked x [] = x ∷ []
  insert_ranked x (y ∷ ys) =
      if ltb (weight x.1) (weight y.1) then y ∷ insert_ranked x ys else x ∷ y ∷ ys

  unfoldable pub sort_ranked : List (K × V) → List (K × V)
  sort_ranked [] = []
  sort_ranked (x ∷ xs) = insert_ranked x (sort_ranked xs)

  -- No later group weighs more.
  abbrev pub Ranked : List (K × V) → Type 0
  Ranked [] = Unit
  Ranked (x ∷ xs) = All (λ y. weight y.1 ≤ weight x.1) xs × Ranked xs

  All-insert_ranked :
      (P : K × V → Type 0) (x : K × V) (ys : List (K × V))
      → P x
      → All P ys
      → All P (insert_ranked x ys)
  unfolding insert_ranked
  All-insert_ranked P x [] p a = (p, tt)
  All-insert_ranked P x (y ∷ ys) p (q, a) = elim (Bool-cases (ltb (weight x.1) (weight y.1))) [
    | inl e ↦ rw e (q, All-insert_ranked P x ys p a)
    | inr e ↦ rw e (p, (q, a))
  ]

  Ranked-insert_ranked : (x : K × V) (ys : List (K × V)) → Ranked ys → Ranked (insert_ranked x ys)
  unfolding insert_ranked
  Ranked-insert_ranked x [] r = (tt, tt)
  Ranked-insert_ranked x (y ∷ ys) (a, r) = elim (Bool-cases (ltb (weight x.1) (weight y.1))) [
    | inl e ↦ rw e (
      All-insert_ranked (λ z. weight z.1 ≤ weight y.1) x ys (ground arith) a,
      Ranked-insert_ranked x ys r,
    )
    | inr e ↦
        let le : weight y.1 ≤ weight x.1 = ground arith in
        rw e ((le, All-imp _ _ ys (λ z l. omega (arith, l, le)) a), (a, r))
  ]

  pub Ranked-sort_ranked : (xs : List (K × V)) → Ranked (sort_ranked xs)
  unfolding sort_ranked
  Ranked-sort_ranked [] = tt
  Ranked-sort_ranked (x ∷ xs) = Ranked-insert_ranked x (sort_ranked xs) (Ranked-sort_ranked xs)

  Fresh-insert_ranked :
      (k : K) (x : K × V) (ys : List (K × V))
      → x.0 ≢ k
      → Fresh k (map (λ c. c.0) ys)
      → Fresh k (map (λ c. c.0) (insert_ranked x ys))
  unfolding insert_ranked
  Fresh-insert_ranked k x [] ne h = (ne, tt)
  Fresh-insert_ranked k x (y ∷ ys) ne (n, h) = elim (Bool-cases (ltb (weight x.1) (weight y.1))) [
    | inl e ↦ rw e (n, Fresh-insert_ranked k x ys ne h)
    | inr e ↦ rw e (ne, (n, h))
  ]

  Distinct-insert_ranked :
      (x : K × V) (ys : List (K × V))
      → Distinct (map (λ c. c.0) (x ∷ ys))
      → Distinct (map (λ c. c.0) (insert_ranked x ys))
  unfolding insert_ranked
  Distinct-insert_ranked x [] d = d
  Distinct-insert_ranked x (y ∷ ys) ((ne, f), (g, d)) =
      elim (Bool-cases (ltb (weight x.1) (weight y.1))) [
        | inl e ↦
            rw e
              (Fresh-insert_ranked y.0 x ys (λ p. ne (sym p)) g, Distinct-insert_ranked x ys (f, d))
        | inr e ↦ rw e ((ne, f), (g, d))
      ]

  Fresh-sort_ranked :
      (k : K) (xs : List (K × V))
      → Fresh k (map (λ c. c.0) xs)
      → Fresh k (map (λ c. c.0) (sort_ranked xs))
  unfolding sort_ranked
  Fresh-sort_ranked k [] h = tt
  Fresh-sort_ranked k (x ∷ xs) (n, h) =
      Fresh-insert_ranked k x (sort_ranked xs) n (Fresh-sort_ranked k xs h)

  pub Distinct-sort_ranked :
      (xs : List (K × V))
      → Distinct (map (λ c. c.0) xs)
      → Distinct (map (λ c. c.0) (sort_ranked xs))
  unfolding sort_ranked
  Distinct-sort_ranked [] d = tt
  Distinct-sort_ranked (x ∷ xs) (f, d) =
      Distinct-insert_ranked x (sort_ranked xs)
        (Fresh-sort_ranked x.0 xs f, Distinct-sort_ranked xs d)

  module _ ⦃e : Eq K⦄ where
    step : (k : K) (x y : K × V) (ys : List (K × V)) → y.0 ≢ k → get k (x ∷ ys) ≡ get k (x ∷ y ∷ ys)
    unfolding get
    step k x y ys p = ap (ite (e.dec x.0 k) (some x.1)) (sym (get_there y.0 k y.1 ys p))

    get-insert_ranked :
        (k : K) (x : K × V) (ys : List (K × V))
        → Fresh x.0 (map (λ c. c.0) ys)
        → get k (insert_ranked x ys) ≡ get k (x ∷ ys)
    unfolding insert_ranked
    get-insert_ranked k x [] f = refl
    get-insert_ranked k x (y ∷ ys) (ne, f) = elim (Bool-cases (ltb (weight x.1) (weight y.1))) [
      | inl g ↦ rw g (elim (e.dec y.0 k) [
        | yes p ↦
            get_here y.0 k y.1 (insert_ranked x ys) p
            ∙ sym (get_there x.0 k x.1 (y ∷ ys) (λ q. ne (p ∙ sym q)) ∙ get_here y.0 k y.1 ys p)
        | no p ↦
            get_there y.0 k y.1 (insert_ranked x ys) p
            ∙ get-insert_ranked k x ys f
            ∙ step k x y ys p
      ])
      | inr g ↦ rw g refl
    ]

    -- Putting the groups in order keeps what each key holds.
    pub get-sort_ranked :
        (k : K) (xs : List (K × V))
        → Distinct (map (λ c. c.0) xs)
        → get k (sort_ranked xs) ≡ get k xs
    unfolding sort_ranked get
    get-sort_ranked k [] d = refl
    get-sort_ranked k (x ∷ xs) (f, d) =
        get-insert_ranked k x (sort_ranked xs) (Fresh-sort_ranked x.0 xs f)
        ∙ ap (ite (e.dec x.0 k) (some x.1)) (get-sort_ranked k xs d)

    pub All-get :
        (P : K × V → Type 0) (k : K) (v : V) (xs : List (K × V))
        → All P xs
        → get k xs ≡ some v
        → P (k, v)
    unfolding get
    All-get P k v [] a h = absurd (cc (h))
    All-get P k v (x ∷ xs) (p, a) h = elim (e.dec x.0 k) [
      | yes q ↦
          let same : x.1 ≡ v = some_path (sym (get_here x.0 k x.1 xs q) ∙ h) in
          subst P (λ i. (q i, same i)) p
      | no q ↦ All-get P k v xs a (sym (get_there x.0 k x.1 xs q) ∙ h)
    ]

    -- A group that is cut off weighs no more than any that is kept, and then as many are kept as
    -- there may be.
    pub take-Ranked :
        (n : ℕ) (xs : List (K × V)) (k : K) (v : V)
        → Ranked xs
        → get k (take n xs) ≡ none
        → get k xs ≡ some v
        → All (λ y. weight v ≤ weight y.1) (take n xs) × (length (take n xs) ≡ n)
    unfolding get
    take-Ranked zero xs k v r gone h = (tt, refl)
    take-Ranked (suc n) [] k v r gone h = absurd (cc (h))
    take-Ranked (suc n) (x ∷ xs) k v (a, r) gone h = elim (e.dec x.0 k) [
      | yes q ↦ absurd (none-some (sym gone ∙ get_here x.0 k x.1 (take n xs) q))
      | no q ↦
          let later = sym (get_there x.0 k x.1 xs q) ∙ h in
          let (all, len) =
            take-Ranked n xs k v r (sym (get_there x.0 k x.1 (take n xs) q) ∙ gone) later in
          ((All-get (λ y. weight y.1 ≤ weight x.1) k v xs a later, all), ap suc len)
    ]

    -- What is kept of a table is what the table held.
    pub take-All_get :
        (n : ℕ) (xs : List (K × V))
        → Distinct (map (λ c. c.0) xs)
        → All (λ y. get y.0 xs ≡ some y.1) (take n xs)
    take-All_get zero xs d = tt
    take-All_get (suc n) [] d = tt
    take-All_get (suc n) (x ∷ xs) (f, d) = (
      get_here x.0 x.0 x.1 xs refl,
      All-imp₂ _ _ _ (take n xs) (λ y h ne. get_there x.0 y.0 x.1 xs (λ p. ne (sym p)) ∙ h)
          (take-All_get n xs d) (take-Fresh n xs x.0 f),
    )
