-- ===== src/Contention/Widths.antt =====
-- The depth and the widths of a schedule.
use tenso.Prelude.{
  ℕ, zero, suc, ◌+◌, ◌≡◌, ◌≤◌, ◌<◌, ap, ◌∙◌, ◌↔◌, some, List, [], ◌∷◌, ◌++◌, ite, arith,
  if◌then◌else◌, ◌-◌, All, All-append, All-imp, get_elem?, number_eq, ℕ_discrete, Option-cases, inl,
  inr, dec_le,
}
use tenso.Prelude.Bounds.{max_of-le}
use tenso.Prelude.Maps.{get, insert, get-insert}
use tenso.Contention.{
  TxLocks, ScheduleResult, build_schedule, count_widths, width_or_zero, max_step, depth_of,
}
use tenso.Contention.Spec.{conflict, Placed, reference_step, reference_steps}
use tenso.Contention.Schedule.{steps_of, depth-steps, widths-steps}
use tenso.Contention.Least.{build_schedule-Waits, get_elem?-same_length, length-reference_steps}

-- How many transactions run at step `k`.
abbrev pub count : ℕ → List ℕ → ℕ
count k [] = 0
count k (s ∷ steps) = ite (ℕ_discrete s k) 1 0 + count k steps

width_at-count_widths :
    (k : ℕ) (steps : List ℕ) (widths : List (ℕ × ℕ))
    → width_or_zero (get k (count_widths steps widths))
      ≡ width_or_zero (get k widths) + count k steps
unfolding count_widths
width_at-count_widths k [] widths = omega arith
width_at-count_widths k (s ∷ steps) widths =
    width_at-count_widths k steps (insert s (width_or_zero (get s widths) + 1) widths)
    ∙ rw (get-insert s k (width_or_zero (get s widths) + 1) widths) (ground arith)

-- A step at which some transaction runs.
abbrev Occupied : ℕ → List ℕ → Type 0
Occupied k steps = (j : ℕ) × (get_elem? steps j ≡ some k)

Occupied-count : (k : ℕ) (steps : List ℕ) → Occupied k steps → 0 < count k steps
Occupied-count k [] (j, h) = absurd (cc (h))
Occupied-count k (s ∷ steps) (zero, h) = ground arith
Occupied-count k (s ∷ steps) (suc j, h) = omega (arith, Occupied-count k steps (j, h))

count-Occupied : (k : ℕ) (steps : List ℕ) → 0 < count k steps → Occupied k steps
count-Occupied k [] h = absurd (omega arith)
count-Occupied k (s ∷ steps) h = elim (ℕ_discrete s k) [
  | yes p ↦ (0, ap some p)
  | no p ↦ let (j, at) = count-Occupied k steps (ground arith) in (suc j, at)
]

max_step-bounds : (k j : ℕ) (steps : List ℕ) → get_elem? steps j ≡ some k → k < depth_of steps
unfolding depth_of max_step
max_step-bounds k j [] h = absurd (cc (h))
max_step-bounds k zero (s ∷ steps) h = ground arith
max_step-bounds k (suc j) (s ∷ steps) h = ground (arith, max_step-bounds k j steps h)

max_step-Occupied : (steps : List ℕ) (d : ℕ) → depth_of steps ≡ suc d → Occupied d steps
unfolding depth_of max_step
max_step-Occupied [] d h = absurd (omega arith)
max_step-Occupied (s ∷ steps) d h = elim (Option-cases (max_step steps)) [
  | inl e ↦ (0, ground arith)
  | inr (m, e) ↦ elim (dec_le m s) [
    | yes p ↦ (0, ground arith)
    | no p ↦ let (j, at) = max_step-Occupied steps d (ground arith) in (suc j, at)
  ]
]

module _ (txs : List TxLocks) {r : ScheduleResult} (ran : build_schedule txs ≡ some r) where
  one_down : (k : ℕ) → Occupied (suc k) r.steps → Occupied k r.steps
  one_down k (j, at) =
      let (q, hq) =
        get_elem?-same_length txs r.steps j (suc k)
          (rw (steps_of txs ran) (omega (arith, length-reference_steps [] txs))) at in
      let w = build_schedule-Waits txs j {q = q} ran hq at in (w.at, w.stepped)

  down_to : (d k : ℕ) → k ≤ d → Occupied d r.steps → Occupied k r.steps
  down_to zero k le h = (h.0, h.1 ∙ ap some (omega arith))
  down_to (suc d) k le h = elim (dec_le k d) [
    | yes p ↦ down_to d k p (one_down d h)
    | no p ↦ (h.0, h.1 ∙ ap some (omega arith))
  ]

  below_depth : (k : ℕ) → k < r.depth → Occupied k r.steps
  below_depth k lt =
      down_to (r.depth - 1) k (omega arith)
        (max_step-Occupied r.steps (r.depth - 1) (omega (arith, depth-steps txs ran)))

  -- The entry of a step in `width_per_step`, 0 if there is none, is the number of transactions
  -- that run at the step; it is positive exactly for the steps below `depth`.
  pub build_schedule-widths :
      (k : ℕ)
      → (width_or_zero (get k r.width_per_step) ≡ count k r.steps)
        × ((k < r.depth) ↔ (0 < count k r.steps))
  unfolding get
  build_schedule-widths k = (
    rw (widths-steps txs ran) (omega (arith, width_at-count_widths k r.steps [])),
    (
      λ lt. Occupied-count k r.steps (below_depth k lt),
      λ pos.
          let (j, at) = count-Occupied k r.steps pos in
          omega (arith, depth-steps txs ran, max_step-bounds k j r.steps at),
    ),
  )

reference_steps-le :
    (b : ℕ) (past : List Placed) (qs : List TxLocks) (j t : ℕ)
    → All (λ e. suc e.1 ≤ b) past
    → get_elem? (reference_steps past qs) j ≡ some t
    → t ≤ b + j
unfolding reference_steps reference_step
reference_steps-le b past [] j t h at = absurd (cc (at))
reference_steps-le b past (q ∷ qs) zero t h at =
    let bounded : reference_step past q ≤ b =
      max_of-le (λ e. if conflict e.0 q.locks then suc e.1 else 0) past b
        (All-imp _ _ past (λ e le. ground arith) h) in
    ground arith
reference_steps-le b past (q ∷ qs) (suc j) t h at =
    let bounded : reference_step past q ≤ b =
      max_of-le (λ e. if conflict e.0 q.locks then suc e.1 else 0) past b
        (All-imp _ _ past (λ e le. ground arith) h) in
    omega (
      arith,
      reference_steps-le (suc b) (past ++ (q, reference_step past q) ∷ []) qs j t
          (All-append _ past _ (All-imp _ _ past (λ e le. omega arith) h) (omega arith)) at,
    )

-- The transaction at index `j` runs at step `j` or before, so no step leaves the range of the
-- indices of the block.
pub build_schedule-step-le :
    (txs : List TxLocks) (j : ℕ) {r : ScheduleResult} {t : ℕ}
    → build_schedule txs ≡ some r
    → get_elem? r.steps j ≡ some t
    → t ≤ j
build_schedule-step-le txs j {r} {t} ran at =
    omega (arith, reference_steps-le 0 [] txs j t tt (rw (steps_of txs ran) at at))
