-- ===== src/Storage/View.antt =====
-- The tables as maps from their primary keys, which forget the order of the rows, and what the
-- statements of crates/storage/src/repository.rs do to the maps.
pub mod Refines
use mathlib.Core.Path.{subst}
use tenso.Prelude.{
  ◌≡◌, refl, sym, ap, ◌∙◌, Option, none, some, List, [], ◌∷◌, ◌++◌, map, ite, if_pos, if_neg, Eq,
  arith, Fresh,
}
use tenso.Prelude.Int.{ℤ, ℤ_discrete}
use tenso.Prelude.Maps.{or_else, or_else-none}
use tenso.Storage.{delete_slot, upsert_row}
use tenso.Storage.Invariant.{Unique}

-- A row that is not of the slot.
abbrev pub unless_slot : {R : Type 0} → (R → ℤ) → ℤ → Option R → Option R
unless_slot slot_of s none = none
unless_slot slot_of s (some r) = ite (ℤ_discrete (slot_of r) s) none (some r)

module _ {K R : Type 0} ⦃e : Eq K⦄ (key : R → K) where
  -- SELECT .. WHERE the primary key is `k`
  unfoldable pub lookup : List R → K → Option R
  lookup [] k = none
  lookup (r ∷ rows) k = ite (e.dec (key r) k) (some r) (lookup rows k)

  lookup-Fresh : (rows : List R) (k : K) → Fresh k (map key rows) → lookup rows k ≡ none
  unfolding lookup
  lookup-Fresh [] k fresh = refl
  lookup-Fresh (r ∷ rows) k fresh =
      if_neg (e.dec (key r) k) fresh.0 _ _ ∙ lookup-Fresh rows k fresh.1

  lookup-append :
      (xs ys : List R) (k : K) → lookup (xs ++ ys) k ≡ or_else (lookup xs k) (lookup ys k)
  unfolding lookup
  lookup-append [] ys k = refl
  lookup-append (x ∷ xs) ys k = ground (arith, lookup-append xs ys k)

  Fresh-append : (xs ys : List R) (k : K) → Fresh k (map key (xs ++ ys)) → Fresh k (map key ys)
  Fresh-append [] ys k fresh = fresh
  Fresh-append (x ∷ xs) ys k fresh = Fresh-append xs ys k fresh.1

  -- Where all keys are distinct, either end may be asked first.
  pub lookup-append_last :
      (xs ys : List R) (k : K)
      → Unique key (xs ++ ys)
      → lookup (xs ++ ys) k ≡ or_else (lookup ys k) (lookup xs k)
  unfolding lookup
  lookup-append_last [] ys k u = sym (or_else-none (lookup ys k))
  lookup-append_last (x ∷ xs) ys k u = elim (e.dec (key x) k) [
    | yes p ↦
        let fresh = subst (λ j. Fresh j (map key ys)) p (Fresh-append xs ys (key x) u.0) in
        rw (if_pos (e.dec (key x) k) p, lookup-Fresh ys k fresh, if_pos (e.dec (key x) k) p) refl
    | no p ↦
        rw (if_neg (e.dec (key x) k) p, if_neg (e.dec (key x) k) p) (lookup-append_last xs ys k u.1)
  ]

  pub lookup-delete_slot :
      (slot_of : R → ℤ) (s : ℤ) (rows : List R) (k : K)
      → Unique key rows
      → lookup (delete_slot slot_of s rows) k ≡ unless_slot slot_of s (lookup rows k)
  unfolding lookup delete_slot
  lookup-delete_slot slot_of s [] k u = refl
  lookup-delete_slot slot_of s (r ∷ rows) k u = elim (ℤ_discrete (slot_of r) s) [
    | yes q ↦ rw (if_pos (ℤ_discrete (slot_of r) s) q) (
        lookup-delete_slot slot_of s rows k u.1 ∙ elim (e.dec (key r) k) [
          | yes p ↦
              let fresh = subst (λ j. Fresh j (map key rows)) p u.0 in
              rw (if_pos (e.dec (key r) k) p, lookup-Fresh rows k fresh)
                (sym (if_pos (ℤ_discrete (slot_of r) s) q _ _))
          | no p ↦ rw (if_neg (e.dec (key r) k) p) refl
        ])
    | no q ↦ rw (if_neg (ℤ_discrete (slot_of r) s) q) (elim (e.dec (key r) k) [
      | yes p ↦
          if_pos (e.dec (key r) k) p _ _
          ∙ sym (
              ap (unless_slot slot_of s) (if_pos (e.dec (key r) k) p _ _)
              ∙ if_neg (ℤ_discrete (slot_of r) s) q _ _)
      | no p ↦
          if_neg (e.dec (key r) k) p _ _
          ∙ lookup-delete_slot slot_of s rows k u.1
          ∙ sym (ap (unless_slot slot_of s) (if_neg (e.dec (key r) k) p _ _))
    ])
  ]

instance abbrev pub slot_eq : Eq ℤ
slot_eq = record { dec = ℤ_discrete }

module _ {R : Type 0} (slot_of : R → ℤ) (new : R) where
  pub lookup-upsert_row :
      (rows : List R) (k : ℤ)
      → lookup slot_of (upsert_row slot_of new rows) k
        ≡ ite (ℤ_discrete (slot_of new) k) (some new) (lookup slot_of rows k)
  unfolding lookup upsert_row
  lookup-upsert_row [] k = refl
  lookup-upsert_row (r ∷ rows) k = ground (arith, lookup-upsert_row rows k)
