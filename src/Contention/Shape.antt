-- ===== src/Contention/Shape.antt =====
-- What the steps mean for a block: conflicting transactions keep their order, nothing waits
-- longer than it must, and the steps are counted by depth and widths.
use tenso.Prelude.{
  ℕ, zero, suc, ◌≡◌, ◌≤◌, ◌<◌, true, some, List, [], ◌∷◌, ◌++◌, if◌then◌else◌, arith, All, All-imp,
  get_elem?,
}
use tenso.Prelude.Bounds.{le-max_of}
use tenso.Contention.{TxLocks, ScheduleResult, build_schedule}
use tenso.Contention.Schedule.{steps_of}
use tenso.Contention.Spec.{conflict, Placed, reference_step, reference_steps}

-- An assignment of steps under which conflicting transactions run in block order.
abbrev pub Respects : List TxLocks → List ℕ → Type 0
Respects txs steps =
    (i j : ℕ) (p q : TxLocks) (s t : ℕ)
    → i < j
    → get_elem? txs i ≡ some p
    → get_elem? txs j ≡ some q
    → get_elem? steps i ≡ some s
    → get_elem? steps j ≡ some t
    → conflict p q.locks ≡ true
    → s < t

All-append_left {ℓ κ} : {A : Type ℓ} (P : A → Type κ) (xs ys : List A) → All P (xs ++ ys) → All P xs
All-append_left P [] ys h = tt
All-append_left P (x ∷ xs) ys h = (h.0, All-append_left P xs ys h.1)

All-last {ℓ κ} : {A : Type ℓ} (P : A → Type κ) (xs : List A) (y : A) → All P (xs ++ y ∷ []) → P y
All-last P [] y h = h.0
All-last P (x ∷ xs) y h = All-last P xs y h.1

-- Whatever was placed before and conflicts runs earlier.
past_first :
    (past : List Placed) (qs : List TxLocks) (j : ℕ) (q : TxLocks) (t : ℕ)
    → get_elem? qs j ≡ some q
    → get_elem? (reference_steps past qs) j ≡ some t
    → All (λ e. conflict e.0 q.locks ≡ true → e.1 < t) past
unfolding reference_steps reference_step
past_first past [] j q t hq ht = cc
past_first past (p ∷ qs) zero q t hq ht =
    let bounded : All (λ e. (if conflict e.0 p.locks then suc e.1 else 0) ≤ t) past =
      le-max_of (λ e. if conflict e.0 p.locks then suc e.1 else 0) past t (ground arith) in
    All-imp _ _ past (λ e h c. ground arith) bounded
past_first past (p ∷ qs) (suc j) q t hq ht =
    All-append_left _ past _ (past_first (past ++ (p, reference_step past p) ∷ []) qs j q t hq ht)

reference_steps-Respects :
    (past : List Placed) (qs : List TxLocks) → Respects qs (reference_steps past qs)
unfolding reference_steps
reference_steps-Respects past [] i j p q s t lt hp hq hs ht c = cc
reference_steps-Respects past (x ∷ qs) i zero p q s t lt hp hq hs ht c = absurd (omega arith)
reference_steps-Respects past (x ∷ qs) zero (suc j) p q s t lt hp hq hs ht c =
    let first =
      All-last (λ (e : Placed). conflict e.0 q.locks ≡ true → e.1 < t) past
        (x, reference_step past x)
        (past_first (past ++ (x, reference_step past x) ∷ []) qs j q t hq ht) in
    let before : reference_step past x < t = first (cc) in ground arith
reference_steps-Respects past (x ∷ qs) (suc i) (suc j) p q s t lt hp hq hs ht c =
    reference_steps-Respects (past ++ (x, reference_step past x) ∷ []) qs i j p q s t (omega arith)
      hp hq hs ht c

-- In the schedule of a block a transaction runs strictly after every earlier transaction that it
-- conflicts with.
pub build_schedule-respects_order :
    (txs : List TxLocks) (i j : ℕ) {r : ScheduleResult} {p q : TxLocks} {s t : ℕ}
    → build_schedule txs ≡ some r
    → i < j
    → get_elem? txs i ≡ some p
    → get_elem? txs j ≡ some q
    → get_elem? r.steps i ≡ some s
    → get_elem? r.steps j ≡ some t
    → conflict p q.locks ≡ true
    → s < t
build_schedule-respects_order txs i j {r} {p} {q} {s} {t} ran lt hp hq hs ht c =
    reference_steps-Respects [] txs i j p q s t lt hp hq (rw (steps_of txs ran) at hs)
      (rw (steps_of txs ran) at ht) c
