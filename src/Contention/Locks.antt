-- ===== src/Contention/Locks.antt =====
-- The two loops over the locks of one transaction.
use tenso.Prelude.{
  ℕ, suc, ◌≡◌, ◌≤◌, refl, ap, ◌∙◌, max, false, ◌||◌, some, List, [], ◌∷◌, ◌++◌, if◌then◌else◌,
  text_eq, ite, arith, text_discrete, All, All-imp,
}
use tenso.Prelude.Bounds.{max_of}
use tenso.Prelude.Maps.{get, insert}
use tenso.Contention.{
  AccountLock, TxLocks, ConflictEvent, Accounts, AccountState, entry_or_default, blocking_step,
  raise_to, earliest_step, update_account, update_accounts, conflict_event,
}
use tenso.Contention.Bound.{
  bound, free_from, state_at, raise_to-blocking_step, free_from-update_account, state_at-insert,
  state_at-entry_or_default, entry_or_default-state, HasEntry, HasEntry-insert,
  HasEntry-entry_or_default, entry_or_default-HasEntry,
}
use tenso.Contention.Spec.{lock_conflict, any_conflict}

abbrev pub SameStates : Accounts → Accounts → Type 0
SameStates m' m = (a : _) → state_at a m' ≡ state_at a m

pub bound_cong : (l : AccountLock) (m' m : Accounts) → SameStates m' m → bound l m' ≡ bound l m
unfolding bound
bound_cong l m' m h = ap (free_from l) (h l.account)

pub max_of-bound_cong :
    (ls : List AccountLock) (m' m : Accounts)
    → SameStates m' m
    → max_of (λ l. bound l m') ls ≡ max_of (λ l. bound l m) ls
max_of-bound_cong [] m' m h = refl
max_of-bound_cong (l ∷ ls) m' m h = rw (bound_cong l m' m h, max_of-bound_cong ls m' m h)

-- Step 1 finds the first step at which all locks may be taken.
pub earliest_step_lem :
    (ls : List AccountLock) (m : Accounts) (e : ℕ)
    → (earliest_step ls m e).1 ≡ max e (max_of (λ l. bound l m) ls)
unfolding earliest_step
earliest_step_lem [] m e = omega arith
earliest_step_lem (l ∷ ls) m e =
    let m' = (entry_or_default l.account m).0 in
    let st = (entry_or_default l.account m).1 in
    let same : SameStates m' m = λ a. state_at-entry_or_default l.account a m in
    let here : free_from l st ≡ bound l m =
      unfold bound in ap (free_from l) (entry_or_default-state l.account m) in
    omega (
      arith,
      earliest_step_lem ls m' (raise_to e (blocking_step l st)),
      raise_to-blocking_step e l st,
      max_of-bound_cong ls m' m same,
    )

-- It leaves the states alone.
pub earliest_step-states :
    (ls : List AccountLock) (m : Accounts) (e : ℕ) → SameStates (earliest_step ls m e).0 m
unfolding earliest_step
earliest_step-states [] m e a = refl
earliest_step-states (l ∷ ls) m e a =
    earliest_step-states ls _ _ a ∙ state_at-entry_or_default l.account a m

earliest_step-HasEntry_old :
    (ls : List AccountLock) (m : Accounts) (e : ℕ) (a : _)
    → HasEntry m a
    → HasEntry (earliest_step ls m e).0 a
unfolding earliest_step
earliest_step-HasEntry_old [] m e a h = h
earliest_step-HasEntry_old (l ∷ ls) m e a h =
    earliest_step-HasEntry_old ls _ _ a (HasEntry-entry_or_default l.account a m h)

-- Afterwards each lock's account has an entry.
pub earliest_step-HasEntry :
    (ls : List AccountLock) (m : Accounts) (e : ℕ)
    → All (λ l. HasEntry (earliest_step ls m e).0 l.account) ls
unfolding earliest_step
earliest_step-HasEntry [] m e = tt
earliest_step-HasEntry (l ∷ ls) m e = (
  earliest_step-HasEntry_old ls _ _ l.account (entry_or_default-HasEntry l.account m),
  earliest_step-HasEntry ls _ _,
)

-- One round of step 2.
bound-insert :
    (tx : TxLocks) (s : ℕ) (k l : AccountLock) (m : Accounts)
    → bound k m ≤ suc s
    → bound l (insert k.account (update_account tx s k (state_at k.account m)) m)
      ≡ max (bound l m) (if lock_conflict k l then suc s else 0)
unfolding bound lock_conflict
bound-insert tx s k l m h =
    rw (state_at-insert k.account l.account (update_account tx s k (state_at k.account m)) m)
      (elim (text_discrete k.account l.account)
        as (λ d.
          free_from l (ite d (update_account tx s k (state_at k.account m)) (state_at l.account m))
          ≡ max (free_from l (state_at l.account m))
              (if ite d (k.is_writable || l.is_writable) false then suc s else 0)) [
                | yes p ↦
                    free_from-update_account tx s k l (state_at k.account m) (λ w. h)
                    ∙ ap
                        (λ a.
                          max (free_from l (state_at a m))
                            (if k.is_writable || l.is_writable then suc s else 0))
                        p
                | no p ↦ omega arith
              ])

HasEntry-get :
    (m : Accounts) (a : _)
    → HasEntry m a
    → (st : AccountState) × (get a m ≡ some st) × (state_at a m ≡ st)
HasEntry-get m a h = ground arith

module _ (tx : TxLocks) (s : ℕ) where
  -- Step 2 does not panic, and makes later conflicting locks wait for this step.
  pub update_accounts_lem :
      (ls : List AccountLock) (m : Accounts) (conflicts : List ConflictEvent)
      → All (λ l. HasEntry m l.account) ls
      → All (λ l. bound l m ≤ suc s) ls
      → (r : Accounts × List ConflictEvent) × (update_accounts tx s ls m conflicts ≡ some r)
        × ((l : AccountLock)
            → bound l r.0 ≡ max (bound l m) (if any_conflict ls l then suc s else 0))
  unfolding update_accounts any_conflict
  update_accounts_lem [] m conflicts hs bs = ((m, conflicts), refl, λ l. omega arith)
  update_accounts_lem (k ∷ ls) m conflicts hs bs =
      let (st, found, same) = HasEntry-get m k.account hs.0 in
      let m' = insert k.account (update_account tx s k (state_at k.account m)) m in
      let grow : (l : AccountLock)
          → bound l m' ≡ max (bound l m) (if lock_conflict k l then suc s else 0) =
        λ l. bound-insert tx s k l m bs.0 in
      let (r, ran, bounds) =
        update_accounts_lem ls m' (conflicts ++ conflict_event tx s k (state_at k.account m))
          (All-imp _ _ ls (λ l. HasEntry-insert k.account l.account _ m) hs.1)
          (All-imp _ _ ls (λ l b. ground (arith, grow l)) bs.1) in
      (r, rw (found, update_accounts, ← same) ran, λ l. ground (arith, bounds l, grow l))
