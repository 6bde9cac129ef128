-- ===== src/Contention/Schedule.antt =====
-- The steps of `build_schedule` are those of the reference schedule, and no account is missing
-- when step 2 looks it up.
use mathlib.Core.List.{append_assoc, append-nil}
use tenso.Prelude.{
  ℕ, suc, ◌≡◌, ◌≤◌, refl, ap, ◌∙◌, max, Bool, true, false, none, some, List, [], ◌∷◌, ◌++◌,
  if◌then◌else◌, arith, All,
}
use tenso.Prelude.Bounds.{max_of, max_of-append, le-max_of}
use tenso.Contention.{
  AccountLock, TxLocks, ConflictEvent, Accounts, ScheduleResult, default, earliest_step,
  update_accounts, schedule_txs, build_schedule, depth_of, count_widths,
}
use tenso.Contention.Bound.{bound, after, free_from_lem}
use tenso.Prelude.Maps.{get}
use tenso.Contention.Locks.{
  bound_cong, max_of-bound_cong, earliest_step_lem, earliest_step-states, earliest_step-HasEntry,
  update_accounts_lem,
}
use tenso.Contention.Spec.{any_conflict, conflict, Placed, reference_step, reference_steps}

-- The first step that the transactions in `past` leave to a lock.
abbrev lock_bound : List Placed → AccountLock → ℕ
lock_bound past l = max_of (λ e. if any_conflict e.0.locks l then suc e.1 else 0) past

join :
    (past : List Placed) (l : AccountLock) (ls : List AccountLock)
    → max_of (λ e. if conflict e.0 (l ∷ ls) then suc e.1 else 0) past
      ≡ max (lock_bound past l) (max_of (λ e. if conflict e.0 ls then suc e.1 else 0) past)
unfolding conflict
join [] l ls = omega arith
join (e ∷ past) l ls = ground (arith, join past l ls)

no_locks : (past : List Placed) → max_of (λ e. if conflict e.0 [] then suc e.1 else 0) past ≡ 0
unfolding conflict
no_locks [] = refl
no_locks (e ∷ past) = omega (arith, no_locks past)

-- The reference step, lock by lock.
reference_by_lock :
    (past : List Placed) (ls : List AccountLock)
    → max_of (λ e. if conflict e.0 ls then suc e.1 else 0) past ≡ max_of (lock_bound past) ls
reference_by_lock past [] = no_locks past
reference_by_lock past (l ∷ ls) =
    join past l ls ∙ ap (max (lock_bound past l)) (reference_by_lock past ls)

-- The account states hold just what matters of the transactions placed so far.
record Tracks (past : List Placed) (m : Accounts) : Type 0 where
  at : (l : AccountLock) → bound l m ≡ lock_bound past l

no_bound : (w : Bool) → (if w then max (after none) (max_of suc []) else after none) ≡ 0
no_bound true = refl
no_bound false = refl

Tracks-nil : Tracks [] []
unfolding get bound
Tracks-nil = record { at = λ l. free_from_lem l default ∙ no_bound l.is_writable }

max_of-cong :
    (f g : AccountLock → ℕ) (ls : List AccountLock)
    → ((l : AccountLock) → f l ≡ g l)
    → max_of f ls ≡ max_of g ls
max_of-cong f g [] h = refl
max_of-cong f g (l ∷ ls) h = omega (arith, h l, max_of-cong f g ls h)

-- One round of the loop over the transactions.
module _ (past : List Placed) (q : TxLocks) (m : Accounts) (t : Tracks past m) where
  abbrev assigned : ℕ
  assigned = (earliest_step q.locks m 0).1

  assigned-reference_step : assigned ≡ reference_step past q
  unfolding reference_step
  assigned-reference_step = omega (
    arith,
    earliest_step_lem q.locks m 0,
    max_of-cong (λ l. bound l m) (lock_bound past) q.locks t.at,
    reference_by_lock past q.locks,
  )

  bounds_allow : All (λ l. bound l (earliest_step q.locks m 0).0 ≤ suc assigned) q.locks
  bounds_allow =
      le-max_of (λ l. bound l (earliest_step q.locks m 0).0) q.locks (suc assigned)
        (omega (
          arith,
          earliest_step_lem q.locks m 0,
          max_of-bound_cong q.locks (earliest_step q.locks m 0).0 m
              (earliest_step-states q.locks m 0),
        ))

  place :
      (conflicts : List ConflictEvent)
      → (r : Accounts × List ConflictEvent) × (update_accounts q assigned q.locks
            (earliest_step q.locks m 0).0
            conflicts
          ≡ some r)
        × Tracks (past ++ (q, reference_step past q) ∷ []) r.0
  place conflicts =
      let (r, ran, bounds) =
        update_accounts_lem q assigned q.locks (earliest_step q.locks m 0).0 conflicts
          (earliest_step-HasEntry q.locks m 0) bounds_allow in
      (
        r,
        ran,
        record {
          at = λ l. ground (
            arith,
            bounds l,
            bound_cong l (earliest_step q.locks m 0).0 m (earliest_step-states q.locks m 0),
            t.at l,
            assigned-reference_step,
            max_of-append (λ (e : Placed). if any_conflict e.0.locks l then suc e.1 else 0) past
                ((q, reference_step past q) ∷ []),
          );
        },
      )

schedule_txs_lem :
    (txs : List TxLocks) (m : Accounts) (past : List Placed) (steps : List ℕ)
    (conflicts : List ConflictEvent)
    → Tracks past m
    → (cs : List ConflictEvent) × (schedule_txs txs m steps conflicts
        ≡ some (steps ++ reference_steps past txs, cs))
unfolding schedule_txs reference_steps
schedule_txs_lem [] m past steps conflicts t = (conflicts, rw append-nil)
schedule_txs_lem (q ∷ txs) m past steps conflicts t =
    let (r, ran, t') = place past q m t conflicts in
    let (cs, rest) = schedule_txs_lem txs r.0 _ (steps ++ reference_step past q ∷ []) r.1 t' in
    (
      cs,
      rw (ran, schedule_txs, assigned-reference_step past q m t)
          (rest ∙ ap (λ l. some (l, cs)) (append_assoc steps _ _)),
    )

-- What `build_schedule` returns, with the steps of the reference.
pub build_schedule_lem :
    (txs : List TxLocks)
    → (cs : List ConflictEvent) × (build_schedule txs
        ≡ some (record {
          steps = reference_steps [] txs;
          depth = depth_of (reference_steps [] txs);
          width_per_step = count_widths (reference_steps [] txs) [];
          conflicts = cs;
        }))
unfolding build_schedule
build_schedule_lem txs =
    let (cs, ran) = schedule_txs_lem txs [] [] [] [] Tracks-nil in (cs, rw (ran, build_schedule))

-- `build_schedule` returns a schedule for every list of transactions: no lookup of an account
-- panics. The steps are, in input order, those of the reference schedule, which places each
-- transaction one step after the last earlier transaction that it conflicts with, or at step 0.
pub build_schedule-reference_steps :
    (txs : List TxLocks)
    → (r : ScheduleResult) × (build_schedule txs ≡ some r) × (r.steps ≡ reference_steps [] txs)
build_schedule-reference_steps txs = let (cs, ran) = build_schedule_lem txs in (_, ran, refl)

-- The fields of a returned schedule.
module _ (txs : List TxLocks) {r : ScheduleResult} (ran : build_schedule txs ≡ some r) where
  pub steps_of : r.steps ≡ reference_steps [] txs
  steps_of = cc (ran, (build_schedule_lem txs).1)

  pub depth-steps : r.depth ≡ depth_of r.steps
  depth-steps = cc (ran, (build_schedule_lem txs).1)

  pub widths-steps : r.width_per_step ≡ count_widths r.steps []
  widths-steps = cc (ran, (build_schedule_lem txs).1)
