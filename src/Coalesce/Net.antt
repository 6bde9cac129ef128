-- ===== src/Coalesce/Net.antt =====
-- Netting keeps the net change of each key and leaves at most one row for a key.
use tenso.Prelude.{
  ℕ, zero, suc, ◌^◌, ◌<◌, ◌≡◌, ◌≢◌, refl, sym, ap, ◌∙◌, Option, none, some, List, [], ◌∷◌, ◌++◌,
  map, ◌⊎◌, Eq, ite, if_pos, if_neg, arith, All, All-imp, inl, inr, Fresh, Distinct,
}
use tenso.Prelude.Int.{ℤ, pos, negsuc, sub_ℕ, ◌+ℤ◌, pos_part, neg_part, +ℤ_zero, zero_+ℤ, +ℤ_assoc}
use tenso.Prelude.Maps.{get}
use tenso.Coalesce.{Change, delta, as_u64, net_row, found_row, emit, coalesce, net_changes}
use tenso.Coalesce.Loop.{net_of, value, IsNets-nil, net_changes_lem}

-- The net change fits the `u64` that it is cast to.
abbrev pub Fits : ℤ → Type 0
Fits z = (pos_part z < 2 ^ 64) × (neg_part z < 2 ^ 64)

-- A row shows its change on one side, and shows some change.
abbrev pub OneSided : {K : Type 0} → Change K → Type 0
OneSided d = ((d.pre ≡ 0) × (0 < d.post)) ⊎ ((d.post ≡ 0) × (0 < d.pre))

-- A row as netting leaves it: one-sided, of `u64` amounts.
abbrev pub IsNet : {K : Type 0} → Change K → Type 0
IsNet d = OneSided d × (d.pre < 2 ^ 64) × (d.post < 2 ^ 64)

ite_zero : {P : Type 0} (c : Dec P) → ite c (pos 0) (pos 0) ≡ pos 0
ite_zero (yes p) = refl
ite_zero (no p) = refl

as_u64_gain : (n : ℕ) → Fits (pos (suc n)) → sub_ℕ (as_u64 (suc n)) 0 ≡ pos (suc n)
as_u64_gain n f = ground arith

as_u64_loss : (n : ℕ) → Fits (negsuc n) → sub_ℕ 0 (as_u64 (suc n)) ≡ negsuc n
as_u64_loss n f = ground arith

module _ {K : Type 0} ⦃e : Eq K⦄ where
  pub net_of-append :
      (k : K) (xs ys : List (Change K)) → net_of k (xs ++ ys) ≡ net_of k xs +ℤ net_of k ys
  unfolding net_of
  net_of-append k [] ys = sym (zero_+ℤ (net_of k ys))
  net_of-append k (d ∷ xs) ys =
      ap (λ z. ite (e.dec d.key k) (delta d) (pos 0) +ℤ z) (net_of-append k xs ys)
      ∙ sym (+ℤ_assoc (ite (e.dec d.key k) (delta d) (pos 0)) (net_of k xs) (net_of k ys))

  net_of-net_row :
      (k key : K) (n : ℤ) (decimals : ℕ)
      → Fits n
      → net_of k (net_row key n decimals) ≡ ite (e.dec key k) n (pos 0)
  unfolding net_of delta
  net_of-net_row k key (pos zero) decimals f = sym (ite_zero (e.dec key k))
  net_of-net_row k key (pos (suc n)) decimals f =
      rw (as_u64_gain n f) (+ℤ_zero (ite (e.dec key k) (pos (suc n)) (pos 0)))
  net_of-net_row k key (negsuc n) decimals f =
      rw (as_u64_loss n f) (+ℤ_zero (ite (e.dec key k) (negsuc n) (pos 0)))

  net_of-found_row :
      (k key : K) (o : Option (ℤ × ℕ))
      → Fits (value o)
      → net_of k (found_row key o) ≡ ite (e.dec key k) (value o) (pos 0)
  unfolding net_of
  net_of-found_row k key none f = sym (ite_zero (e.dec key k))
  net_of-found_row k key (some (n, decimals)) f = net_of-net_row k key n decimals f

  module _ (net : List (K × (ℤ × ℕ))) (fits : (k : K) → Fits (value (get k net))) where
    net_of-emit-Fresh : (k : K) (order : List K) → Fresh k order → net_of k (emit order net) ≡ pos 0
    unfolding emit net_of
    net_of-emit-Fresh k [] f = refl
    net_of-emit-Fresh k (key ∷ order) f =
        net_of-append k (found_row key (get key net)) (emit order net)
        ∙ rw (net_of-found_row k key (get key net) (fits key), if_neg (e.dec key k) f.0)
            (zero_+ℤ (net_of k (emit order net)) ∙ net_of-emit-Fresh k order f.1)

    net_of-emit :
        (k : K) (order : List K)
        → Distinct order
        → (Fresh k order → value (get k net) ≡ pos 0)
        → net_of k (emit order net) ≡ value (get k net)
    unfolding emit net_of
    net_of-emit k [] d absent = sym (absent tt)
    net_of-emit k (key ∷ order) d absent =
        net_of-append k (found_row key (get key net)) (emit order net)
        ∙ rw (net_of-found_row k key (get key net) (fits key)) (elim (e.dec key k) [
          | yes p ↦ rw (if_pos (e.dec key k) p) (
              rw (net_of-emit-Fresh k order (All-imp _ _ order (λ j ne q. ne (q ∙ sym p)) d.0))
                (+ℤ_zero (value (get key net)) ∙ ap (λ j. value (get j net)) p))
          | no p ↦
              rw (if_neg (e.dec key k) p) (zero_+ℤ _ ∙ net_of-emit k order d.1 (λ f. absent (p, f)))
        ])

  -- The keys of the rows.
  abbrev pub keys : List (Change K) → List K
  keys = map (λ d. d.key)

  Fresh-found_row :
      (k key : K) (o : Option (ℤ × ℕ)) (rest : List (Change K))
      → key ≢ k
      → Fresh k (keys rest)
      → Fresh k (keys (found_row key o ++ rest))
  Fresh-found_row k key none rest ne f = f
  Fresh-found_row k key (some (pos zero, c)) rest ne f = f
  Fresh-found_row k key (some (pos (suc n), c)) rest ne f = (ne, f)
  Fresh-found_row k key (some (negsuc n, c)) rest ne f = (ne, f)

  Distinct-found_row :
      (key : K) (o : Option (ℤ × ℕ)) (rest : List (Change K))
      → Fresh key (keys rest)
      → Distinct (keys rest)
      → Distinct (keys (found_row key o ++ rest))
  Distinct-found_row key none rest f d = d
  Distinct-found_row key (some (pos zero, c)) rest f d = d
  Distinct-found_row key (some (pos (suc n), c)) rest f d = (f, d)
  Distinct-found_row key (some (negsuc n, c)) rest f d = (f, d)

  IsNet-found_row :
      (key : K) (o : Option (ℤ × ℕ)) (rest : List (Change K))
      → Fits (value o)
      → All IsNet rest
      → All IsNet (found_row key o ++ rest)
  IsNet-found_row key none rest f a = a
  IsNet-found_row key (some (pos zero, c)) rest f a = a
  IsNet-found_row key (some (pos (suc n), c)) rest f a =
      ((inl (refl, omega arith), omega arith, omega arith), a)
  IsNet-found_row key (some (negsuc n, c)) rest f a =
      ((inr (refl, omega arith), omega arith, omega arith), a)

  Fresh-emit :
      (k : K) (order : List K) (net : List (K × (ℤ × ℕ)))
      → Fresh k order
      → Fresh k (keys (emit order net))
  unfolding emit
  Fresh-emit k [] net f = tt
  Fresh-emit k (key ∷ order) net f =
      Fresh-found_row k key (get key net) (emit order net) f.0 (Fresh-emit k order net f.1)

  Distinct-emit :
      (order : List K) (net : List (K × (ℤ × ℕ)))
      → Distinct order
      → Distinct (keys (emit order net))
  unfolding emit
  Distinct-emit [] net d = tt
  Distinct-emit (key ∷ order) net d =
      Distinct-found_row key (get key net) (emit order net) (Fresh-emit key order net d.0)
        (Distinct-emit order net d.1)

  IsNet-emit :
      (order : List K) (net : List (K × (ℤ × ℕ)))
      → ((k : K) → Fits (value (get k net)))
      → All IsNet (emit order net)
  unfolding emit
  IsNet-emit [] net f = tt
  IsNet-emit (key ∷ order) net f =
      IsNet-found_row key (get key net) (emit order net) (f key) (IsNet-emit order net f)

  -- Netting leaves at most one row for a key.
  pub Distinct-coalesce : (ds : List (Change K)) → Distinct (keys (coalesce ds))
  unfolding coalesce
  Distinct-coalesce ds = Distinct-emit _ _ (net_changes_lem ds ([], []) IsNets-nil).0.distinct

  value-net_changes :
      (ds : List (Change K)) (k : K) → value (get k (net_changes ds ([], [])).0) ≡ net_of k ds
  unfolding get
  value-net_changes ds k = (net_changes_lem ds ([], []) IsNets-nil).1 k ∙ zero_+ℤ (net_of k ds)

  -- Where the net change of each key fits a `u64`, each row shows a change that is not zero, on one
  -- side, in the range of a `u64`.
  pub IsNet-coalesce :
      (ds : List (Change K)) → ((k : K) → Fits (net_of k ds)) → All IsNet (coalesce ds)
  unfolding coalesce
  IsNet-coalesce ds fits = IsNet-emit _ _ (λ k. rw (value-net_changes ds k) (fits k))

  -- Netting keeps the net change of every key, where the net change of each key fits a `u64`.
  pub net_of-coalesce :
      (ds : List (Change K)) (k : K)
      → ((j : K) → Fits (net_of j ds))
      → net_of k (coalesce ds) ≡ net_of k ds
  unfolding coalesce
  net_of-coalesce ds k fits =
      let valid = (net_changes_lem ds ([], []) IsNets-nil).0 in
      net_of-emit _ (λ j. rw (value-net_changes ds j) (fits j)) k _ valid.distinct
        (λ f. ap value (valid.absent k f))
      ∙ value-net_changes ds k
