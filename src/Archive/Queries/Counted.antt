-- ===== src/Archive/Queries/Counted.antt =====
-- What COUNT and COUNT(DISTINCT ..) count, as the sizes of sets.
use mathlib.Core.List.{Memᴰ}
use tenso.Prelude.{
  ℕ, suc, ◌≡◌, refl, sym, ap, ◌∙◌, ◌↔◌, String, Bool, true, false, List, [], ◌∷◌, map, length,
  length-map, Fresh, Distinct, Bool-cases, inl, inr, if_pos, if_neg, text_discrete,
}
use tenso.Ohlcv.{wsol_mint}
use tenso.Storage.{BalanceDbRow}
use tenso.Storage.Invariant.{Unique}
use tenso.Archive.Queries.{count_where, count_distinct, has_text, wsol_signatures}

-- Just `n` keys have a property.
abbrev pub IsNumberOf : {K : Type 0} → ℕ → (K → Type 0) → Type 0
IsNumberOf {K} n P =
    (keys : List K) × (length keys ≡ n) × Distinct keys × ((k : K) → Memᴰ k keys ↔ P k)

-- A row with a key.
abbrev pub HasRow : {K R : Type 0} → (R → K) → List R → K → Type 0
HasRow key rows k = (r : _) × Memᴰ r rows × (key r ≡ k)

-- A row with a key and a property.
abbrev pub HasRowWhere : {K R : Type 0} → (R → K) → (R → Type 0) → List R → K → Type 0
HasRowWhere key Q rows k = (r : _) × Memᴰ r rows × (key r ≡ k) × Q r

pub IsNumberOf-iff :
    {K : Type 0} (n : ℕ) (P Q : K → Type 0)
    → IsNumberOf n P
    → ((k : K) → P k ↔ Q k)
    → IsNumberOf n Q
IsNumberOf-iff n P Q (keys, number, distinct, are) same =
    (keys, number, distinct, λ k. (λ m. (same k).0 ((are k).0 m), λ q. (are k).1 ((same k).1 q)))

not-Memᴰ-Fresh : {K : Type 0} (k : K) (ks : List K) → ¬ Memᴰ k ks → Fresh k ks
not-Memᴰ-Fresh k [] h = tt
not-Memᴰ-Fresh k (j ∷ ks) h =
    (λ e. h (Memᴰ.head (sym e)), not-Memᴰ-Fresh k ks (λ m. h (Memᴰ.tail m)))

Fresh-not-Memᴰ : {K : Type 0} (k : K) (ks : List K) → Fresh k ks → ¬ Memᴰ k ks
Fresh-not-Memᴰ k [] f m = elim m [ ]
Fresh-not-Memᴰ k (j ∷ ks) f (Memᴰ.head e) = f.0 (sym e)
Fresh-not-Memᴰ k (j ∷ ks) f (Memᴰ.tail m) = Fresh-not-Memᴰ k ks f.1 m

module _ {K R : Type 0} (key : R → K) where
  pub Memᴰ-map : (rows : List R) (k : K) → Memᴰ k (map key rows) ↔ HasRow key rows k
  Memᴰ-map rows k = (there rows, λ h. back rows h.0 h.1 h.2)
    where
      there : (rows : List R) → Memᴰ k (map key rows) → HasRow key rows k
      there [] m = elim m [ ]
      there (r ∷ rows) (Memᴰ.head e) = (r, Memᴰ.head refl, sym e)
      there (r ∷ rows) (Memᴰ.tail m) = let (s, at, e) = there rows m in (s, Memᴰ.tail at, e)

      back : (rows : List R) (r : R) → Memᴰ r rows → key r ≡ k → Memᴰ k (map key rows)
      back [] r m e = elim m [ ]
      back (s ∷ rows) r (Memᴰ.head p) e = Memᴰ.head (sym e ∙ ap key p)
      back (s ∷ rows) r (Memᴰ.tail m) e = Memᴰ.tail (back rows r m e)

  -- The rows of a table with a primary key.
  pub length-IsNumberOf :
      (rows : List R) → Unique key rows → IsNumberOf (length rows) (HasRow key rows)
  length-IsNumberOf rows u = (map key rows, length-map key rows, u, Memᴰ-map rows)

  -- Those of them that pass a test.
  module _ (test : R → Bool) where
    pub count_where-IsNumberOf :
        (rows : List R)
        → Unique key rows
        → IsNumberOf (count_where test rows) (HasRowWhere key (λ r. test r ≡ true) rows)
    unfolding count_where
    count_where-IsNumberOf [] u = ([], refl, tt, λ k. (λ m. elim m [ ], λ h. elim h.1 [ ]))
    count_where-IsNumberOf (r ∷ rows) u =
        let (keys, number, distinct, are) = count_where-IsNumberOf rows u.1 in
        let fresh : ¬ Memᴰ (key r) keys = λ m.
          let (s, at, e, p) = (are (key r)).0 m in
          Fresh-not-Memᴰ (key r) (map key rows) u.0 ((Memᴰ-map rows (key r)).1 (s, at, e)) in
        elim (Bool-cases (test r)) [
          | inl t ↦
              rw (t, count_where)
                (
                  key r ∷ keys,
                  ap suc number,
                  (not-Memᴰ-Fresh (key r) keys fresh, distinct),
                  λ k. (counted r rows k keys t (are k).0, found r rows k keys (are k).1),
                )
          | inr t ↦
              rw (t, count_where)
                (
                  keys,
                  number,
                  distinct,
                  λ k. (
                    λ m. let (s, at, e, p) = (are k).0 m in (s, Memᴰ.tail at, e, p),
                    λ h. (are k).1 (skip r rows k t h.0 h.1 h.2 h.3),
                  ),
                )
        ]
      where
        counted :
            (r : R) (rows : List R) (k : K) (keys : List K)
            → test r ≡ true
            → (Memᴰ k keys → HasRowWhere key (λ r. test r ≡ true) rows k)
            → Memᴰ k (key r ∷ keys)
            → HasRowWhere key (λ r. test r ≡ true) (r ∷ rows) k
        counted r rows k keys t are (Memᴰ.head e) = (r, Memᴰ.head refl, sym e, t)
        counted r rows k keys t are (Memᴰ.tail m) =
            let (s, at, e, p) = are m in (s, Memᴰ.tail at, e, p)

        found :
            (r : R) (rows : List R) (k : K) (keys : List K)
            → (HasRowWhere key (λ r. test r ≡ true) rows k → Memᴰ k keys)
            → HasRowWhere key (λ r. test r ≡ true) (r ∷ rows) k
            → Memᴰ k (key r ∷ keys)
        found r rows k keys are (s, Memᴰ.head p, e, q) = Memᴰ.head (sym e ∙ ap key p)
        found r rows k keys are (s, Memᴰ.tail m, e, q) = Memᴰ.tail (are (s, m, e, q))

        skip :
            (r : R) (rows : List R) (k : K)
            → test r ≡ false
            → (s : R) → Memᴰ s (r ∷ rows)
            → key s ≡ k
            → test s ≡ true
            → HasRowWhere key (λ r. test r ≡ true) rows k
        skip r rows k t s (Memᴰ.head p) e q =
            absurd (let bad : true ≡ false = sym q ∙ ap test p ∙ t in cc (bad))
        skip r rows k t s (Memᴰ.tail m) e q = (s, m, e, q)

has_text-Memᴰ : (k : String) (ks : List String) → has_text k ks ≡ true → Memᴰ k ks
unfolding has_text
has_text-Memᴰ k [] h = absurd (cc (h))
has_text-Memᴰ k (j ∷ ks) h = elim (text_discrete j k) [
  | yes p ↦ Memᴰ.head (sym p)
  | no p ↦ Memᴰ.tail (has_text-Memᴰ k ks (rw (if_neg (text_discrete j k) p) at h))
]

Memᴰ-has_text : (k : String) (ks : List String) → Memᴰ k ks → has_text k ks ≡ true
unfolding has_text
Memᴰ-has_text k [] m = elim m [ ]
Memᴰ-has_text k (j ∷ ks) (Memᴰ.head e) = if_pos (text_discrete j k) (sym e) _ _
Memᴰ-has_text k (j ∷ ks) (Memᴰ.tail m) = elim (text_discrete j k) [
  | yes p ↦ if_pos (text_discrete j k) p _ _
  | no p ↦ if_neg (text_discrete j k) p _ _ ∙ Memᴰ-has_text k ks m
]

-- COUNT(DISTINCT ..) is the number of the values.
pub count_distinct-IsNumberOf : (ks : List String) → IsNumberOf (count_distinct ks) (λ k. Memᴰ k ks)
unfolding count_distinct
count_distinct-IsNumberOf [] = ([], refl, tt, λ k. (λ m. m, λ m. m))
count_distinct-IsNumberOf (j ∷ ks) =
    let (keys, number, distinct, are) = count_distinct-IsNumberOf ks in
    elim (Bool-cases (has_text j ks)) [
      | inl t ↦
          rw (t, count_distinct)
            (
              keys,
              number,
              distinct,
              λ k. (λ m. Memᴰ.tail ((are k).0 m), λ m. (are k).1 (again j ks k t m)),
            )
      | inr t ↦
          rw (t, count_distinct)
            (
              j ∷ keys,
              ap suc number,
              (
                not-Memᴰ-Fresh j keys (λ m.
                    let bad : true ≡ false = sym (Memᴰ-has_text j ks ((are j).0 m)) ∙ t in
                    cc (bad)),
                distinct,
              ),
              λ k. (both j k keys ks (are k).0, both j k ks keys (are k).1),
            )
    ]
  where
    again :
        (j : String) (ks : List String) (k : String)
        → has_text j ks ≡ true
        → Memᴰ k (j ∷ ks)
        → Memᴰ k ks
    again j ks k t (Memᴰ.head e) = rw e (has_text-Memᴰ j ks t)
    again j ks k t (Memᴰ.tail m) = m

    both :
        (j k : String) (xs ys : List String)
        → (Memᴰ k xs → Memᴰ k ys)
        → Memᴰ k (j ∷ xs)
        → Memᴰ k (j ∷ ys)
    both j k xs ys h (Memᴰ.head e) = Memᴰ.head e
    both j k xs ys h (Memᴰ.tail m) = Memᴰ.tail (h m)

abbrev IsWsol : BalanceDbRow → Type 0
IsWsol r = r.mint ≡ wsol_mint

-- The signatures of the rows of wrapped SOL.
pub Memᴰ-wsol_signatures :
    (rows : List BalanceDbRow) (k : String)
    → Memᴰ k (wsol_signatures rows) ↔ HasRowWhere (λ r. r.tx_signature) IsWsol rows k
unfolding wsol_signatures
Memᴰ-wsol_signatures rows k = (there rows, λ h. back rows h.0 h.1 h.2 h.3)
  where
    first :
        (r : BalanceDbRow) (rows : List BalanceDbRow)
        → IsWsol r
        → (Memᴰ k (wsol_signatures rows) → HasRowWhere (λ r. r.tx_signature) IsWsol rows k)
        → Memᴰ k (r.tx_signature ∷ wsol_signatures rows)
        → HasRowWhere (λ r. r.tx_signature) IsWsol (r ∷ rows) k
    first r rows p later (Memᴰ.head e) = (r, Memᴰ.head refl, sym e, p)
    first r rows p later (Memᴰ.tail m) = let (s, at, e, q) = later m in (s, Memᴰ.tail at, e, q)

    there :
        (rows : List BalanceDbRow)
        → Memᴰ k (wsol_signatures rows)
        → HasRowWhere (λ r. r.tx_signature) IsWsol rows k
    there [] m = elim m [ ]
    there (r ∷ rows) m = elim (text_discrete r.mint wsol_mint) [
      | yes p ↦ first r rows p (there rows) (rw (if_pos (text_discrete r.mint wsol_mint) p) at m)
      | no p ↦
          let (s, at, e, q) = there rows (rw (if_neg (text_discrete r.mint wsol_mint) p) at m) in
          (s, Memᴰ.tail at, e, q)
    ]

    back :
        (rows : List BalanceDbRow) (r : BalanceDbRow)
        → Memᴰ r rows
        → r.tx_signature ≡ k
        → IsWsol r
        → Memᴰ k (wsol_signatures rows)
    back [] r m e q = elim m [ ]
    back (s ∷ rows) r (Memᴰ.head p) e q =
        let wsol : IsWsol s = ap (λ r. r.mint) (sym p) ∙ q in
        rw (if_pos (text_discrete s.mint wsol_mint) wsol)
          (Memᴰ.head (sym e ∙ ap (λ r. r.tx_signature) p))
    back (s ∷ rows) r (Memᴰ.tail m) e q = elim (text_discrete s.mint wsol_mint) [
      | yes p ↦ rw (if_pos (text_discrete s.mint wsol_mint) p) (Memᴰ.tail (back rows r m e q))
      | no p ↦ rw (if_neg (text_discrete s.mint wsol_mint) p) (back rows r m e q)
    ]
