-- ===== src/Coalesce/Loop.antt =====
-- What the loop keeps: one entry of `order` for each key of `net`, and the sum of its changes.
use tenso.Prelude.{
  ℕ, ◌≡◌, refl, sym, ap, ◌∙◌, Option, none, some, List, [], ◌∷◌, Eq, ite, if_pos, if_neg,
  All-append, All-split, Fresh, Distinct, Distinct-snoc, Option-cases, inl, inr,
}
use tenso.Prelude.Int.{ℤ, pos, ◌+ℤ◌, +ℤ_zero, zero_+ℤ, +ℤ_assoc}
use tenso.Prelude.Maps.{get, insert, get-insert, get-insert_ne, get-insert-none}
use tenso.Coalesce.{Change, delta, Nets, net_change, net_changes}

abbrev pub value : Option (ℤ × ℕ) → ℤ
value none = pos 0
value (some (n, decimals)) = n

module _ {K : Type 0} ⦃e : Eq K⦄ where
  -- The sum of the changes under a key.
  unfoldable pub net_of : K → List (Change K) → ℤ
  net_of k [] = pos 0
  net_of k (d ∷ ds) = ite (e.dec d.key k) (delta d) (pos 0) +ℤ net_of k ds

  pub record IsNets (s : Nets K) : Type 0 where
    pub distinct : Distinct s.1
    pub absent : (k : K) → Fresh k s.1 → get k s.0 ≡ none
    pub fresh : (k : K) → get k s.0 ≡ none → Fresh k s.1

  pub IsNets-nil : IsNets ([], [])
  unfolding get
  IsNets-nil = record { distinct = tt; absent = λ k f. refl; fresh = λ k h. tt }

  net_change-IsNets : (d : Change K) (s : Nets K) → IsNets s → IsNets (net_change d s)
  unfolding net_change
  net_change-IsNets d (net, order) v = elim (Option-cases (get d.key net)) [
    | inl new ↦
        rw (new, net_change)
          (record {
            distinct = Distinct-snoc order d.key v.distinct (v.fresh d.key new);
            absent = λ k f.
                let (old, last) = All-split _ order (d.key ∷ []) f in
                get-insert_ne d.key k _ net last.0 ∙ v.absent k old;
            fresh = λ k h.
                let (ne, gone) = get-insert-none d.key k _ net h in
                All-append _ order (d.key ∷ []) (v.fresh k gone) (ne, tt);
          })
    | inr (p, old) ↦
        rw (old, net_change)
          (record {
            distinct = v.distinct;
            absent = λ k f.
                get-insert_ne d.key k _ net
                  (λ q. let here : get k net ≡ some p = rw (← q) old in cc (v.absent k f, here))
                ∙ v.absent k f;
            fresh = λ k h. v.fresh k (get-insert-none d.key k _ net h).1;
          })
  ]

  value-insert :
      (d : Change K) (n : ℤ) (c : ℕ) (net : List (K × (ℤ × ℕ))) (k : K)
      → n ≡ value (get d.key net) +ℤ delta d
      → value (get k (insert d.key (n, c) net))
        ≡ value (get k net) +ℤ ite (e.dec d.key k) (delta d) (pos 0)
  value-insert d n c net k sum = elim (e.dec d.key k) [
    | yes p ↦
        rw (get-insert d.key k (n, c) net, if_pos (e.dec d.key k) p, if_pos (e.dec d.key k) p)
          (sum ∙ ap (λ j. value (get j net) +ℤ delta d) p)
    | no p ↦
        rw (get-insert d.key k (n, c) net, if_neg (e.dec d.key k) p, if_neg (e.dec d.key k) p)
          (sym (+ℤ_zero (value (get k net))))
  ]

  value-net_change :
      (d : Change K) (s : Nets K) (k : K)
      → value (get k (net_change d s).0)
        ≡ value (get k s.0) +ℤ ite (e.dec d.key k) (delta d) (pos 0)
  unfolding net_change
  value-net_change d (net, order) k = elim (Option-cases (get d.key net)) [
    | inl new ↦
        rw (new, net_change)
          (value-insert d (delta d) d.decimals net k (rw new (sym (zero_+ℤ (delta d)))))
    | inr (p, old) ↦ rw (old, net_change) (value-insert d (p.0 +ℤ delta d) p.1 net k (rw old))
  ]

  -- After the loop `net` holds the sum of the changes of each key.
  pub net_changes_lem :
      (ds : List (Change K)) (s : Nets K)
      → IsNets s
      → IsNets (net_changes ds s)
        × ((k : K) → value (get k (net_changes ds s).0) ≡ value (get k s.0) +ℤ net_of k ds)
  unfolding net_changes net_of
  net_changes_lem [] s v = (v, λ k. sym (+ℤ_zero (value (get k s.0))))
  net_changes_lem (d ∷ ds) s v =
      let (valid, sums) = net_changes_lem ds (net_change d s) (net_change-IsNets d s v) in
      (
        valid,
        λ k.
            sums k
            ∙ ap (λ z. z +ℤ net_of k ds) (value-net_change d s k)
            ∙ +ℤ_assoc (value (get k s.0)) (ite (e.dec d.key k) (delta d) (pos 0)) (net_of k ds),
      )
