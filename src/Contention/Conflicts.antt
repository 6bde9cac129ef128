-- ===== src/Contention/Conflicts.antt =====
-- The conflict events of a schedule, described without any account state.
use mathlib.Core.List.{append_assoc, append-nil}
use mathlib.Core.Path.{subst}
use tenso.Prelude.{
  ℕ, ◌≡◌, refl, sym, ap, ◌∙◌, String, Bool, true, false, ◌&&◌, none, some, List, [], ◌∷◌, ◌++◌,
  if◌then◌else◌, ite, text_eq, arith, Option-cases, Bool-cases, some_path, inl, inr, if_pos, if_neg,
}
use tenso.Prelude.Maps.{get, insert}
use tenso.Contention.{
  AccountLock, TxLocks, ConflictEvent, Accounts, AccountState, ScheduleResult, state_or_default,
  earliest_step, had_prior_activity, is_empty, update_account, update_accounts, conflict_event,
  schedule_txs, build_schedule,
}
use tenso.Contention.Bound.{state_at, state_at-insert}
use tenso.Contention.Locks.{earliest_step-states}

-- The account is among those locked.
unfoldable pub locked : String → List AccountLock → Bool
locked a [] = false
locked a (l ∷ ls) = ite (text_eq.dec l.account a) true (locked a ls)

-- The events of the locks of one transaction, where `past` are all locks before them: one for each
-- write to an account that was locked before.
unfoldable pub lock_events : TxLocks → ℕ → List AccountLock → List AccountLock → List ConflictEvent
lock_events tx s past [] = []
lock_events tx s past (l ∷ ls) =
    let rest = lock_events tx s (past ++ l ∷ []) ls in
    if l.is_writable && locked l.account past
    then record {
      account = l.account;
      tx_signature = tx.signature;
      program_ids = tx.program_ids;
      step = s;
      caused_by_write = true;
    }
      ∷ rest
    else rest

-- The events of the transactions, each with its step.
unfoldable pub reference_conflicts : List AccountLock → List TxLocks → List ℕ → List ConflictEvent
reference_conflicts past [] steps = []
reference_conflicts past (q ∷ qs) [] = []
reference_conflicts past (q ∷ qs) (s ∷ steps) =
    lock_events q s past q.locks ++ reference_conflicts (past ++ q.locks) qs steps

-- The map shows activity at just the accounts that were locked.
abbrev Knows : List AccountLock → Accounts → Type 0
Knows past m = (a : String) → had_prior_activity (state_at a m) ≡ locked a past

locked-snoc :
    (a : String) (past : List AccountLock) (l : AccountLock)
    → locked a (past ++ l ∷ []) ≡ ite (text_eq.dec l.account a) true (locked a past)
unfolding locked
locked-snoc a [] l = refl
locked-snoc a (p ∷ past) l = ground (arith, locked-snoc a past l)

is_empty-snoc : (rs : List ℕ) (s : ℕ) → is_empty (rs ++ s ∷ []) ≡ false
is_empty-snoc [] s = refl
is_empty-snoc (r ∷ rs) s = refl

-- A lock that is taken leaves activity.
had_prior_activity-update_account :
    (tx : TxLocks) (s : ℕ) (l : AccountLock) (st : AccountState)
    → had_prior_activity (update_account tx s l st) ≡ true
unfolding had_prior_activity update_account
had_prior_activity-update_account tx s l st = elim (Bool-cases l.is_writable) [
  | inl e ↦ rw e refl
  | inr e ↦ rw (e, is_empty-snoc st.reader_steps_since_write s) (ground arith)
]

Knows-insert :
    (tx : TxLocks) (s : ℕ) (l : AccountLock) (st : AccountState) (past : List AccountLock)
    (m : Accounts)
    → Knows past m
    → Knows (past ++ l ∷ []) (insert l.account (update_account tx s l st) m)
Knows-insert tx s l st past m k a = elim (text_eq.dec l.account a) [
  | yes p ↦
      ap had_prior_activity (
        state_at-insert l.account a (update_account tx s l st) m
        ∙ if_pos (text_eq.dec l.account a) p _ _)
      ∙ had_prior_activity-update_account tx s l st
      ∙ sym (locked-snoc a past l ∙ if_pos (text_eq.dec l.account a) p _ _)
  | no p ↦
      ap had_prior_activity (
        state_at-insert l.account a (update_account tx s l st) m
        ∙ if_neg (text_eq.dec l.account a) p _ _)
      ∙ k a
      ∙ sym (locked-snoc a past l ∙ if_neg (text_eq.dec l.account a) p _ _)
]

lock_events-step :
    (tx : TxLocks) (s : ℕ) (l : AccountLock) (ls past : List AccountLock) (st : AccountState)
    → had_prior_activity st ≡ locked l.account past
    → lock_events tx s past (l ∷ ls)
      ≡ conflict_event tx s l st ++ lock_events tx s (past ++ l ∷ []) ls
unfolding lock_events conflict_event
lock_events-step tx s l ls past st h = elim (Bool-cases l.is_writable) [
  | inr e ↦ rw e refl
  | inl e ↦ elim (Bool-cases (locked l.account past)) [
    | inl e' ↦ rw (h, e, e') refl
    | inr e' ↦ rw (h, e, e') refl
  ]
]

update_accounts-conflicts :
    (tx : TxLocks) (s : ℕ) (ls past : List AccountLock) (m : Accounts) (cs : List ConflictEvent)
    (r : Accounts × List ConflictEvent)
    → Knows past m
    → update_accounts tx s ls m cs ≡ some r
    → (r.1 ≡ cs ++ lock_events tx s past ls) × Knows (past ++ ls) r.0
unfolding update_accounts lock_events
update_accounts-conflicts tx s [] past m cs r k h =
    let same : (m, cs) ≡ r = some_path h in
    (
      sym (ap (λ x. x.1) same) ∙ sym (append-nil cs),
      subst (λ x. Knows (past ++ []) x.0) same (λ a. k a ∙ ap (locked a) (sym (append-nil past))),
    )
update_accounts-conflicts tx s (l ∷ ls) past m cs r k h = elim (Option-cases (get l.account m)) [
  | inl e ↦ absurd (let gone : none ≡ some r = rw (e, update_accounts) at h in cc (gone))
  | inr (st, e) ↦
      let rest = rw (e, update_accounts) at h in
      let seen : had_prior_activity st ≡ locked l.account past =
        sym (ap (λ o. had_prior_activity (state_or_default o)) e) ∙ k l.account in
      let (events, known) =
        update_accounts-conflicts tx s ls (past ++ l ∷ [])
          (insert l.account (update_account tx s l st) m) (cs ++ conflict_event tx s l st) r
          (Knows-insert tx s l st past m k) rest in
      (
        events
            ∙ append_assoc cs (conflict_event tx s l st) (lock_events tx s (past ++ l ∷ []) ls)
            ∙ ap (λ x. cs ++ x) (sym (lock_events-step tx s l ls past st seen)),
        λ a. known a ∙ ap (locked a) (append_assoc past (l ∷ []) ls),
      )
]

schedule_txs-conflicts :
    (txs : List TxLocks) (past : List AccountLock) (m : Accounts) (steps : List ℕ)
    (cs : List ConflictEvent) (r : List ℕ × List ConflictEvent)
    → Knows past m
    → schedule_txs txs m steps cs ≡ some r
    → (new : List ℕ) × (r.0 ≡ steps ++ new) × (r.1 ≡ cs ++ reference_conflicts past txs new)
unfolding schedule_txs reference_conflicts
schedule_txs-conflicts [] past m steps cs r k h =
    let same = some_path h in
    (
      [],
      sym (ap (λ x. x.0) same) ∙ sym (append-nil steps),
      sym (ap (λ x. x.1) same) ∙ sym (append-nil cs),
    )
schedule_txs-conflicts (q ∷ txs) past m steps cs r k h =
    let m' = (earliest_step q.locks m 0).0 in
    let s = (earliest_step q.locks m 0).1 in
    let k' : Knows past m' =
      λ a. ap had_prior_activity (earliest_step-states q.locks m 0 a) ∙ k a in
    elim (Option-cases (update_accounts q s q.locks m' cs)) [
      | inl e ↦ absurd (let gone : none ≡ some r = rw (e, schedule_txs) at h in cc (gone))
      | inr (u, e) ↦
          let rest = rw (e, schedule_txs) at h in
          let (events, known) = update_accounts-conflicts q s q.locks past m' cs u k' e in
          let (new, placed, later) =
            schedule_txs-conflicts txs (past ++ q.locks) u.0 (steps ++ s ∷ []) u.1 r known rest in
          (
            s ∷ new,
            placed ∙ append_assoc steps (s ∷ []) new,
            later
                ∙ ap (λ x. x ++ reference_conflicts (past ++ q.locks) txs new) events
                ∙ append_assoc cs (lock_events q s past q.locks)
                    (reference_conflicts (past ++ q.locks) txs new),
          )
    ]

-- The conflict events of a schedule are just the writes to an account that was locked before, by an
-- earlier transaction of the block or by an earlier lock of the same one: in the order of the
-- locks, each with the step of its transaction.
pub build_schedule-reference_conflicts :
    (txs : List TxLocks) {r : ScheduleResult}
    → build_schedule txs ≡ some r
    → r.conflicts ≡ reference_conflicts [] txs r.steps
unfolding build_schedule had_prior_activity locked get
build_schedule-reference_conflicts txs {r} ran = elim (Option-cases (schedule_txs txs [] [] [])) [
  | inl e ↦ absurd (let gone : none ≡ some r = rw (e, build_schedule) at ran in cc (gone))
  | inr (x, e) ↦
      let made = some_path (rw (e, build_schedule) at ran) in
      let (new, placed, events) = schedule_txs-conflicts txs [] [] [] [] x (λ a. refl) e in
      sym (ap (λ (r : ScheduleResult). r.conflicts) made)
      ∙ events
      ∙ ap (reference_conflicts [] txs) (sym placed ∙ ap (λ (r : ScheduleResult). r.steps) made)
]
