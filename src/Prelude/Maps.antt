-- ===== src/Prelude/Maps.antt =====
-- `HashMap`, as an association list with one entry for each key, over keys with an equality.
-- Where the program iterates over a map, its order is a parameter of the model.
use tenso.Prelude.{
  ◌≡◌, ◌≢◌, refl, sym, ◌∙◌, if_pos, if_neg, ite, Option, none, some, List, [], ◌∷◌, arith, Eq,
}

-- option.or(other)
abbrev pub or_else {ℓ} : {A : Type ℓ} → Option A → Option A → Option A
or_else none o = o
or_else (some a) o = some a

pub or_else-none {ℓ} : {A : Type ℓ} (o : Option A) → or_else o none ≡ o
or_else-none none = refl
or_else-none (some a) = refl

module _ {ℓ} {K V : Type ℓ} ⦃e : Eq K⦄ where
  -- map.get(k)
  unfoldable pub get : K → List (K × V) → Option V
  get k [] = none
  get k ((j, v) ∷ m) = ite (e.dec j k) (some v) (get k m)

  -- map.insert(k, v)
  unfoldable pub insert : K → V → List (K × V) → List (K × V)
  insert k v [] = (k, v) ∷ []
  insert k v ((j, w) ∷ m) = ite (e.dec j k) ((k, v) ∷ m) ((j, w) ∷ insert k v m)

  pub get_here : (j k : K) (v : V) (m : List (K × V)) → j ≡ k → get k ((j, v) ∷ m) ≡ some v
  unfolding get
  get_here j k v m p = if_pos (e.dec j k) p (some v) (get k m)

  pub get_there : (j k : K) (v : V) (m : List (K × V)) → j ≢ k → get k ((j, v) ∷ m) ≡ get k m
  unfolding get
  get_there j k v m p = if_neg (e.dec j k) p (some v) (get k m)

  pub get-insert :
      (k j : K) (v : V) (m : List (K × V))
      → get j (insert k v m) ≡ ite (e.dec k j) (some v) (get j m)
  unfolding get insert
  get-insert k j v [] = refl
  get-insert k j v ((i, w) ∷ m) = ground (arith, get-insert k j v m)

  pub get-insert_self : (k : K) (v : V) (m : List (K × V)) → get k (insert k v m) ≡ some v
  get-insert_self k v m = get-insert k k v m ∙ if_pos (e.dec k k) refl (some v) (get k m)

  pub get-insert_ne : (k j : K) (v : V) (m : List (K × V)) → k ≢ j → get j (insert k v m) ≡ get j m
  get-insert_ne k j v m h = get-insert k j v m ∙ if_neg (e.dec k j) h (some v) (get j m)

  -- A key that is missing after an insertion is another key, and was missing before.
  pub get-insert-none :
      (k j : K) (v : V) (m : List (K × V))
      → get j (insert k v m) ≡ none
      → (k ≢ j) × (get j m ≡ none)
  get-insert-none k j v m h = elim (e.dec k j) [
    | yes p ↦ absurd (
        let new : get k (insert k v m) ≡ some v = get-insert_self k v m in
        let same : get j (insert k v m) ≡ some v = rw (← p) new in cc (same, h))
    | no p ↦ (p, sym (get-insert_ne k j v m p) ∙ h)
  ]
