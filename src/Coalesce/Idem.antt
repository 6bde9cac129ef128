-- ===== src/Coalesce/Idem.antt =====
-- Netting what is already netted changes nothing, so the second netting, by `storage`, leaves the
-- rows of the first alone.
use mathlib.Core.List.{append-nil, append_assoc}
use mathlib.Core.Path.{subst}
use tenso.Prelude.{
  ℕ, zero, suc, ◌^◌, ◌<◌, ◌≡◌, refl, sym, ap, ◌∙◌, none, some, List, [], ◌∷◌, ◌++◌, Eq, arith, All,
  All-imp₂, All-intro, Option-cases, inl, inr, Fresh, Distinct,
}
use tenso.Prelude.Int.{ℤ, pos, negsuc, sub_ℕ}
use tenso.Prelude.Maps.{get, insert, get-insert_self, get-insert_ne}
use tenso.Coalesce.{Change, delta, net_row, emit, coalesce, net_change, net_changes}
use tenso.Coalesce.Loop.{net_of}
use tenso.Coalesce.Net.{keys, IsNet, Fits, Distinct-coalesce, IsNet-coalesce}

sub_ℕ-zero : (n : ℕ) → sub_ℕ n 0 ≡ pos n
sub_ℕ-zero n = ground arith

sub_ℕ_neg : (n : ℕ) → sub_ℕ 0 (suc n) ≡ negsuc n
sub_ℕ_neg n = ground arith

module _ {K : Type 0} where
  row : K → ℕ → ℕ → ℕ → Change K
  row key pre post decimals = record { key = key; pre = pre; post = post; decimals = decimals }

  net_row_gain :
      (key : K) (post decimals : ℕ)
      → 0 < post
      → post < 2 ^ 64
      → net_row key (sub_ℕ post 0) decimals ≡ row key 0 post decimals ∷ []
  unfolding row
  net_row_gain key zero c p h = absurd (omega arith)
  net_row_gain key (suc n) c p h =
      rw (sub_ℕ-zero (suc n)) (ap (λ m. row key 0 m c ∷ []) (omega arith))

  net_row_loss :
      (key : K) (pre decimals : ℕ)
      → 0 < pre
      → pre < 2 ^ 64
      → net_row key (sub_ℕ 0 pre) decimals ≡ row key pre 0 decimals ∷ []
  unfolding row
  net_row_loss key zero c p h = absurd (omega arith)
  net_row_loss key (suc n) c p h = rw (sub_ℕ_neg n) (ap (λ m. row key m 0 c ∷ []) (omega arith))

  net_row-IsNet : (d : Change K) → IsNet d → net_row d.key (delta d) d.decimals ≡ d ∷ []
  unfolding delta row
  net_row-IsNet d (inl (z, p), l, h) =
      ap (λ m. net_row d.key (sub_ℕ d.post m) d.decimals) z
      ∙ net_row_gain d.key d.post d.decimals p h
      ∙ ap (λ m. row d.key m d.post d.decimals ∷ []) (sym z)
  net_row-IsNet d (inr (z, p), l, h) =
      ap (λ m. net_row d.key (sub_ℕ m d.pre) d.decimals) z
      ∙ net_row_loss d.key d.pre d.decimals p l
      ∙ ap (λ m. row d.key d.pre m d.decimals ∷ []) (sym z)

module _ {K : Type 0} ⦃e : Eq K⦄ where
  -- `net` holds just what the rows say.
  abbrev Holds : List (K × (ℤ × ℕ)) → List (Change K) → Type 0
  Holds net = All (λ d. get d.key net ≡ some (delta d, d.decimals))

  net_changes-other :
      (ds : List (Change K)) (s : List (K × (ℤ × ℕ)) × List K) (k : K)
      → Fresh k (keys ds)
      → get k (net_changes ds s).0 ≡ get k s.0
  unfolding net_changes net_change
  net_changes-other [] s k f = refl
  net_changes-other (d ∷ ds) (net, order) k f =
      net_changes-other ds (net_change d (net, order)) k f.1 ∙ elim (Option-cases (get d.key net)) [
        | inl new ↦ rw (new, net_change) (get-insert_ne d.key k _ net f.0)
        | inr (p, old) ↦ rw (old, net_change) (get-insert_ne d.key k _ net f.0)
      ]

  net_change_new :
      (d : Change K) (net : List (K × (ℤ × ℕ))) (order : List K)
      → get d.key net ≡ none
      → net_change d (net, order) ≡ (insert d.key (delta d, d.decimals) net, order ++ d.key ∷ [])
  unfolding net_change
  net_change_new d net order new = rw (new, net_change)

  net_changes-Distinct :
      (ds : List (Change K)) (net : List (K × (ℤ × ℕ))) (order : List K)
      → Distinct (keys ds)
      → All (λ k. get k net ≡ none) (keys ds)
      → ((net_changes ds (net, order)).1 ≡ order ++ keys ds)
        × Holds (net_changes ds (net, order)).0 ds
  unfolding net_changes
  net_changes-Distinct [] net order d a = (sym (append-nil order), tt)
  net_changes-Distinct (d ∷ ds) net order (f, dist) (new, a) =
      let net' = insert d.key (delta d, d.decimals) net in
      let (orders, holds) = net_changes-Distinct ds net' (order ++ d.key ∷ []) dist (
        All-imp₂ _ _ _ (keys ds) (λ k ne old. get-insert_ne d.key k _ net (λ p. ne (sym p)) ∙ old) f
          a) in
      subst
        (λ (s : List (K × (ℤ × ℕ)) × List K).
          ((net_changes ds s).1 ≡ order ++ keys (d ∷ ds)) × Holds (net_changes ds s).0 (d ∷ ds))
        (sym (net_change_new d net order new))
        (
          orders ∙ append_assoc order (d.key ∷ []) (keys ds),
          (
            net_changes-other ds (net', order ++ d.key ∷ []) d.key f
                ∙ get-insert_self d.key (delta d, d.decimals) net,
            holds,
          ),
        )

  emit-Holds :
      (ds : List (Change K)) (net : List (K × (ℤ × ℕ)))
      → All IsNet ds
      → Holds net ds
      → emit (keys ds) net ≡ ds
  unfolding emit
  emit-Holds [] net a h = refl
  emit-Holds (d ∷ ds) net (a, as') (h, hs) =
      rw h (rw (net_row-IsNet d a) (ap (◌∷◌ d) (emit-Holds ds net as' hs)))

  -- Rows with distinct keys that are already net come out as they are.
  pub coalesce-IsNet : (ds : List (Change K)) → Distinct (keys ds) → All IsNet ds → coalesce ds ≡ ds
  unfolding coalesce get
  coalesce-IsNet ds d a =
      let (orders, holds) = net_changes-Distinct ds [] [] d (All-intro _ (keys ds) (λ k. refl)) in
      rw orders (emit-Holds ds _ a holds)

  -- Netting twice is netting once, where the net changes fit a `u64`.
  pub coalesce_idem :
      (ds : List (Change K)) → ((k : K) → Fits (net_of k ds)) → coalesce (coalesce ds) ≡ coalesce ds
  coalesce_idem ds fits =
      coalesce-IsNet (coalesce ds) (Distinct-coalesce ds) (IsNet-coalesce ds fits)
