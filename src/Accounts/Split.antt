-- ===== src/Accounts/Split.antt =====
-- The split of the static keys is total, loses no key, and follows the header.
use tenso.Prelude.{
  ℕ, suc, ◌+◌, ◌-◌, ◌≤◌, min, String, ◌≡◌, refl, sym, ap, ◌∙◌, Bool, ◌<◌, length-take,
  length-append, length-drop, take-append-take, take-length, true, false, some, List, [], ◌∷◌, ◌++◌,
  map, if◌then◌else◌, Bool-cases, inl, inr, not, ltb, length, take, drop, arith,
}
use mathlib.Core.List.Perm
use mathlib.Core.List.{append-nil, Perm, perm_middle}
use mathlib.Core.Path.{◌≡⟨◌⟩◌, ◌∎}
use tenso.Accounts.{
  MessageHeader, slice, split_static_keys, resolve_account_locks, writable_lock, readonly_lock,
}

-- The keys of the static layout [signed writable][signed readonly][unsigned writable][unsigned
-- readonly], picked by index.
pub is_writable_index : MessageHeader → ℕ → ℕ → Bool
is_writable_index h n i =
    if ltb i h.num_required_signatures
    then ltb i (h.num_required_signatures - h.num_readonly_signed_accounts)
    else ltb i (n - h.num_readonly_unsigned_accounts)

-- The keys from index `i` on whose index passes a test.
pub pick : (ℕ → Bool) → ℕ → List String → List String
pick p i [] = []
pick p i (k ∷ keys) = let rest = pick p (suc i) keys in if p i then k ∷ rest else rest

slice_lem :
    (xs : List String) (from to : ℕ)
    → from ≤ to
    → to ≤ length xs
    → slice xs from to ≡ some (take (to - from) (drop from xs))
unfolding slice
slice_lem xs from to p q = ground arith

pick-append :
    (p : ℕ → Bool) (i : ℕ) (xs ys : List String)
    → pick p i (xs ++ ys) ≡ pick p i xs ++ pick p (i + length xs) ys
unfolding pick
pick-append p i [] ys = ap (λ j. pick p j ys) (omega arith)
pick-append p i (x ∷ xs) ys =
    rw (pick-append p (suc i) xs ys) (rw (suc-shift i (length xs)) (by_test (p i) _ _))
  where
    suc-shift : (a b : ℕ) → suc a + b ≡ a + suc b
    suc-shift a b = omega arith

    by_test :
        (b : Bool) (l m : List String)
        → (if b then x ∷ l ++ m else l ++ m) ≡ (if b then x ∷ l else l) ++ m
    by_test true l m = refl
    by_test false l m = refl

-- A segment on whose indices the test is constant.
pick_constant :
    (v : Bool) (p : ℕ → Bool) (i n : ℕ) (xs : List String)
    → length xs ≡ n
    → ((j : ℕ) → i ≤ j → j < i + n → p j ≡ v)
    → pick p i xs ≡ (if v then xs else [])
unfolding pick
pick_constant true p i n [] e h = refl
pick_constant false p i n [] e h = refl
pick_constant true p i n (x ∷ xs) e h = rw (h i (omega arith) (omega arith)) (
    ap (◌∷◌ x)
      (pick_constant true p (suc i) (length xs) xs refl (λ j a b. h j (omega arith) (omega arith))))
pick_constant false p i n (x ∷ xs) e h =
    rw (h i (omega arith) (omega arith))
      (pick_constant false p (suc i) (length xs) xs refl (λ j a b. h j (omega arith) (omega arith)))

segment : List String → ℕ → ℕ → List String
segment keys from to = take (to - from) (drop from keys)

-- Four adjacent segments on which a test is constant.
module _ (keys : List String) (a b c : ℕ) (ab : a ≤ b) (bc : b ≤ c) (cn : c ≤ length keys) where
  length-segment :
      (from to : ℕ) → from ≤ to → to ≤ length keys → length (segment keys from to) ≡ to - from
  unfolding segment
  length-segment from to p q =
      omega (arith, length-take (to - from) (drop from keys), length-drop from keys)

  segments :
      keys
      ≡ segment keys 0 a ++ segment keys a b ++ segment keys b c ++ segment keys c (length keys)
  unfolding segment
  segments = sym (
      take (a - 0) keys
        ++ take (b - a) (drop a keys)
        ++ take (c - b) (drop b keys)
        ++ take (length keys - c) (drop c keys)
      ≡⟨ rw (sub-zero a, take-append-take a (b - a) keys, rejoin a b ab) refl ⟩
        take b keys ++ take (c - b) (drop b keys) ++ take (length keys - c) (drop c keys)
      ≡⟨ rw (take-append-take b (c - b) keys, rejoin b c bc) refl ⟩
        take c keys ++ take (length keys - c) (drop c keys)
      ≡⟨ rw (take-append-take c (length keys - c) keys, rejoin c (length keys) cn)
          (take-length keys) ⟩
        keys ∎)
    where
      rejoin : (x y : ℕ) → x ≤ y → x + (y - x) ≡ y
      rejoin x y le = omega arith

      sub-zero : (x : ℕ) → x - 0 ≡ x
      sub-zero x = omega arith

  pick_segments :
      (p : ℕ → Bool) (u v w x : Bool)
      → ((j : ℕ) → j < a → p j ≡ u)
      → ((j : ℕ) → a ≤ j → j < b → p j ≡ v)
      → ((j : ℕ) → b ≤ j → j < c → p j ≡ w)
      → ((j : ℕ) → c ≤ j → j < length keys → p j ≡ x)
      → pick p 0 keys
        ≡ (if u then segment keys 0 a else [])
          ++ (if v then segment keys a b else [])
          ++ (if w then segment keys b c else [])
          ++ (if x then segment keys c (length keys) else [])
  pick_segments p u v w x hu hv hw hx =
      let sA = segment keys 0 a in
      let sB = segment keys a b in
      let sC = segment keys b c in
      let sD = segment keys c (length keys) in
      let nA : length sA ≡ a - 0 = length-segment 0 a (omega arith) (omega arith) in
      let nB : length sB ≡ b - a = length-segment a b (omega arith) (omega arith) in
      let nC : length sC ≡ c - b = length-segment b c (omega arith) (omega arith) in
      let nD : length sD ≡ length keys - c =
        length-segment c (length keys) (omega arith) (omega arith) in
      let nAB : length (sA ++ sB) ≡ b = omega (arith, length-append sA sB) in
      let nABC : length (sA ++ sB ++ sC) ≡ c = omega (arith, length-append (sA ++ sB) sC) in
      let eA = pick_constant u p 0 a sA (omega arith) (λ j l g. hu j (omega arith)) in
      let eB =
        pick_constant v p (0 + length sA) (b - a) sB nB
          (λ j l g. hv j (omega arith) (omega arith)) in
      let eC =
        pick_constant w p (0 + length (sA ++ sB)) (c - b) sC nC
          (λ j l g. hw j (omega arith) (omega arith)) in
      let eD =
        pick_constant x p (0 + length (sA ++ sB ++ sC)) (length keys - c) sD nD
          (λ j l g. hx j (omega arith) (omega arith)) in
      ap (pick p 0) segments
      ∙ rw (
        pick-append p 0 (sA ++ sB ++ sC) sD,
        pick-append p 0 (sA ++ sB) sC,
        pick-append p 0 sA sB,
        eA,
        eB,
        eC,
        eD,
      )

append-nil2 : (xs ys : List String) → xs ++ [] ++ ys ++ [] ≡ xs ++ ys
append-nil2 xs ys = simp append-nil

append-nil3 : (xs ys : List String) → [] ++ xs ++ [] ++ ys ≡ xs ++ ys
append-nil3 xs ys = simp append-nil

module _ (keys : List String) (h : MessageHeader) where
  abbrev n : ℕ
  n = length keys

  abbrev num_sig : ℕ
  num_sig = h.num_required_signatures

  abbrev a : ℕ
  a = min (num_sig - h.num_readonly_signed_accounts) n

  abbrev b : ℕ
  b = min num_sig n

  abbrev c : ℕ
  c = min (num_sig + (n - num_sig - h.num_readonly_unsigned_accounts)) n

  slices :
      split_static_keys keys h
      ≡ some (segment keys 0 a ++ segment keys b c, segment keys a b ++ segment keys c n)
  unfolding split_static_keys segment
  slices = rw (
    slice_lem keys 0 a (omega arith) (omega arith),
    slice_lem keys a b (omega arith) (omega arith),
    slice_lem keys b c (omega arith) (omega arith),
    slice_lem keys c n (omega arith) (omega arith),
  )

  writable_keys : pick (is_writable_index h n) 0 keys ≡ segment keys 0 a ++ segment keys b c
  unfolding is_writable_index
  writable_keys =
      pick_segments keys a b c (omega arith) (omega arith) (omega arith) (is_writable_index h n)
        true false true false (λ j l. ground arith) (λ j g l. ground arith) (λ j g l. ground arith)
        (λ j g l. ground arith)
      ∙ append-nil2 (segment keys 0 a) (segment keys b c)

  readonly_keys :
      pick (λ i. not (is_writable_index h n i)) 0 keys ≡ segment keys a b ++ segment keys c n
  unfolding is_writable_index
  readonly_keys =
      pick_segments keys a b c (omega arith) (omega arith) (omega arith)
        (λ i. not (is_writable_index h n i)) false true false true (λ j l. ground arith)
        (λ j g l. ground arith) (λ j g l. ground arith) (λ j g l. ground arith)
      ∙ append-nil3 (segment keys a b) (segment keys c n)

pick-perm :
    (p : ℕ → Bool) (i : ℕ) (xs : List String) → Perm (pick p i xs ++ pick (λ j. not (p j)) i xs) xs
unfolding pick
pick-perm p i [] = Perm.refl []
pick-perm p i (x ∷ xs) = elim (Bool-cases (p i)) [
  | inl e ↦ rw e (Perm.cons x (pick-perm p (suc i) xs))
  | inr e ↦ rw e (Perm.trans (perm_middle _ _) (Perm.cons x (pick-perm p (suc i) xs)))
]

-- For every header, consistent or not, resolving the locks panics on no slice. The writable locks
-- come first, those of the static keys that the header makes writable and then the loaded
-- writable addresses; the read-only ones follow in the same way.
pub resolve_account_locks_lem :
    (keys : List String) (h : MessageHeader) (loaded_writable loaded_readonly : List String)
    → resolve_account_locks keys h loaded_writable loaded_readonly
      ≡ some (
          map writable_lock (pick (is_writable_index h (length keys)) 0 keys ++ loaded_writable)
          ++ map readonly_lock
              (pick (λ i. not (is_writable_index h (length keys) i)) 0 keys ++ loaded_readonly))
unfolding resolve_account_locks
resolve_account_locks_lem keys h lw lr =
    rw (slices keys h, writable_keys keys h, readonly_keys keys h)

-- The two lists that the split returns hold each static key exactly as often as the transaction
-- lists it.
pub split_static_keys-perm :
    (keys : List String) (h : MessageHeader)
    → (r : List String × List String) × (split_static_keys keys h ≡ some r) × Perm (r.0 ++ r.1) keys
split_static_keys-perm keys h = (
  (
    segment keys 0 (a keys h) ++ segment keys (b keys h) (c keys h),
    segment keys (a keys h) (b keys h) ++ segment keys (c keys h) (length keys),
  ),
  slices keys h,
  rw (← writable_keys keys h, ← readonly_keys keys h)
      (pick-perm (is_writable_index h (length keys)) 0 keys),
)
