-- ===== src/Contention/Least.antt =====
-- Nothing waits longer than it must: the schedule is the least that keeps the order.
use tenso.Prelude.{
  ℕ, zero, suc, ◌≡◌, ◌≤◌, ◌<◌, refl, ap, ◌∙◌, true, some, List, [], ◌∷◌, ◌++◌, ◌⊎◌, inl, inr,
  if◌then◌else◌, arith, length, get_elem?, dec_le,
}
use tenso.Prelude.Bounds.{max_of}
use tenso.Contention.{TxLocks, ScheduleResult, build_schedule}
use tenso.Contention.Schedule.{steps_of}
use tenso.Contention.Shape.{Respects}
use tenso.Contention.Spec.{conflict, Placed, reference_step, reference_steps}

-- The value at which a maximum is reached.
max_of-reached {ℓ} :
    {A : Type ℓ} (f : A → ℕ) (xs : List A) (m : ℕ)
    → max_of f xs ≡ suc m
    → (n : ℕ) × (x : A) × (get_elem? xs n ≡ some x) × (f x ≡ suc m)
max_of-reached f [] m h = absurd (omega arith)
max_of-reached f (x ∷ xs) m h = elim (dec_le (suc m) (f x)) [
  | yes p ↦ (0, x, refl, omega arith)
  | no p ↦ let (n, y, at, eq) = max_of-reached f xs m (omega arith) in (suc n, y, at, eq)
]

-- A transaction that does not run at step 0 waits for an earlier one that runs just before it.
pub record Waits (txs : List TxLocks) (steps : List ℕ) (j : ℕ) (s : ℕ) (q : TxLocks) : Type 0 where
  pub at : ℕ
  pub blocker : TxLocks
  pub earlier : at < j
  pub placed : get_elem? txs at ≡ some blocker
  pub stepped : get_elem? steps at ≡ some s
  pub conflicts : conflict blocker q.locks ≡ true

-- The same over transactions that were placed before.
abbrev WaitsPast : List Placed → ℕ → TxLocks → Type 0
WaitsPast past s q =
    (n : ℕ) × (e : Placed) × (get_elem? past n ≡ some e) × (e.1 ≡ s) × (conflict e.0 q.locks ≡ true)

get_elem?-snoc {ℓ} :
    {A : Type ℓ} (xs : List A) (y x : A) (n : ℕ)
    → get_elem? (xs ++ y ∷ []) n ≡ some x
    → (get_elem? xs n ≡ some x) ⊎ (y ≡ x)
get_elem?-snoc [] y x zero h = inr (cc)
get_elem?-snoc [] y x (suc n) h = cc
get_elem?-snoc (z ∷ xs) y x zero h = inl h
get_elem?-snoc (z ∷ xs) y x (suc n) h = get_elem?-snoc xs y x n h

reference_steps-tight :
    (past : List Placed) (qs : List TxLocks) (j : ℕ) (q : TxLocks) (s : ℕ)
    → get_elem? qs j ≡ some q
    → get_elem? (reference_steps past qs) j ≡ some (suc s)
    → WaitsPast past s q ⊎ Waits qs (reference_steps past qs) j s q
unfolding reference_steps reference_step
reference_steps-tight past [] j q s hq ht = cc
reference_steps-tight past (p ∷ qs) zero q s hq ht =
    let (n, e, at, eq) =
      max_of-reached (λ (e : Placed). if conflict e.0 p.locks then suc e.1 else 0) past s
        (ground arith) in
    inl (n, e, at, ground arith, ground arith)
reference_steps-tight past (p ∷ qs) (suc j) q s hq ht =
    elim (reference_steps-tight (past ++ (p, reference_step past p) ∷ []) qs j q s hq ht) [
      | inl (n, e, at, eq, c) ↦ elim (get_elem?-snoc past (p, reference_step past p) e n at) [
        | inl old ↦ inl (n, e, old, eq, c)
        | inr new ↦ inr (record {
          at = 0;
          blocker = p;
          earlier = omega arith;
          placed = refl;
          stepped = ap some (ap (λ (z : Placed). z.1) new ∙ eq);
          conflicts = ap (λ (z : Placed). conflict z.0 q.locks) new ∙ c;
        })
      ]
      | inr w ↦ inr (record {
        at = suc w.at;
        blocker = w.blocker;
        earlier = omega (arith, w.earlier);
        placed = w.placed;
        stepped = w.stepped;
        conflicts = w.conflicts;
      })
    ]

reference_steps-Waits :
    (txs : List TxLocks) (j : ℕ) (q : TxLocks) (s : ℕ)
    → get_elem? txs j ≡ some q
    → get_elem? (reference_steps [] txs) j ≡ some (suc s)
    → Waits txs (reference_steps [] txs) j s q
reference_steps-Waits txs j q s hq ht = elim (reference_steps-tight [] txs j q s hq ht) [
  | inl (n, e, at, _, _) ↦ absurd (cc (at))
  | inr w ↦ w
]

-- A transaction that does not run at step 0 has an earlier transaction that it conflicts with and
-- that runs just one step before it.
pub build_schedule-Waits :
    (txs : List TxLocks) (j : ℕ) {r : ScheduleResult} {q : TxLocks} {s : ℕ}
    → build_schedule txs ≡ some r
    → get_elem? txs j ≡ some q
    → get_elem? r.steps j ≡ some (suc s)
    → Waits txs r.steps j s q
build_schedule-Waits txs j {r} {q} {s} ran hq ht =
    rw (steps_of txs ran) (reference_steps-Waits txs j q s hq (rw (steps_of txs ran) at ht))

get_elem?-below {ℓ} :
    {A : Type ℓ} (xs : List A) (i j : ℕ) (y : A)
    → i < j
    → get_elem? xs j ≡ some y
    → (x : A) × (get_elem? xs i ≡ some x)
get_elem?-below [] i j y lt h = absurd (cc (h))
get_elem?-below (x ∷ xs) zero j y lt h = (x, refl)
get_elem?-below (x ∷ xs) (suc i) zero y lt h = absurd (omega arith)
get_elem?-below (x ∷ xs) (suc i) (suc j) y lt h = get_elem?-below xs i j y (omega arith) h

pub get_elem?-same_length {ℓ κ} :
    {A : Type ℓ} {B : Type κ} (xs : List A) (ys : List B) (j : ℕ) (y : B)
    → length xs ≡ length ys
    → get_elem? ys j ≡ some y
    → (x : A) × (get_elem? xs j ≡ some x)
get_elem?-same_length [] [] j y e h = absurd (cc (h))
get_elem?-same_length [] (y ∷ ys) j z e h = absurd (omega arith)
get_elem?-same_length (x ∷ xs) [] j y e h = absurd (omega arith)
get_elem?-same_length (x ∷ xs) (y ∷ ys) zero z e h = (x, refl)
get_elem?-same_length (x ∷ xs) (y ∷ ys) (suc j) z e h =
    get_elem?-same_length xs ys j z (omega arith) h

pub length-reference_steps :
    (past : List Placed) (qs : List TxLocks) → length (reference_steps past qs) ≡ length qs
unfolding reference_steps reference_step
length-reference_steps past [] = refl
length-reference_steps past (q ∷ qs) =
    ap suc (length-reference_steps (past ++ (q, reference_step past q) ∷ []) qs)

reference_steps-least :
    (txs : List TxLocks) (steps : List ℕ) (t j u : ℕ)
    → Respects txs steps
    → get_elem? (reference_steps [] txs) j ≡ some t
    → get_elem? steps j ≡ some u
    → t ≤ u
reference_steps-least txs steps zero j u ok ht hu = omega arith
reference_steps-least txs steps (suc t) j u ok ht hu =
    let (q, hq) =
      get_elem?-same_length txs (reference_steps [] txs) j (suc t)
        (omega (arith, length-reference_steps [] txs)) ht in
    let w = reference_steps-Waits txs j q t hq ht in
    let (v, hv) = get_elem?-below steps w.at j u w.earlier hu in
    let below : t ≤ v = reference_steps-least txs steps t w.at v ok w.stepped hv in
    let apart : v < u = ok w.at j w.blocker q v u w.earlier w.placed hq hv hu w.conflicts in
    omega arith

-- No assignment of steps that keeps conflicting transactions in block order runs any transaction
-- earlier: the schedule is the least one.
pub build_schedule-least :
    (txs : List TxLocks) (steps : List ℕ) (j : ℕ) {r : ScheduleResult} {t u : ℕ}
    → build_schedule txs ≡ some r
    → Respects txs steps
    → get_elem? r.steps j ≡ some t
    → get_elem? steps j ≡ some u
    → t ≤ u
build_schedule-least txs steps j {r} {t} {u} ran ok ht hu =
    reference_steps-least txs steps t j u ok (rw (steps_of txs ran) at ht) hu
