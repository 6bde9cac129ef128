-- ===== src/Contention/Bound.antt =====
-- What an account's state says about a lock: the first step at which the lock may be taken.
use tenso.Prelude.{
  ℕ, suc, ◌≡◌, ◌≤◌, max, String, Bool, true, false, ◌||◌, Option, none, some, List, [], ◌∷◌,
  if◌then◌else◌, text_eq, ite, arith, Option-cases, inl, inr,
}
use tenso.Prelude.Bounds.{max_of, max_of-append}
use tenso.Prelude.Maps.{get, insert, get-insert}
use tenso.Contention.{
  AccountLock, TxLocks, AccountState, Accounts, default, state_or_default, entry_or_default,
  max_readers, blocking_step, update_account, raise_to,
}

abbrev pub after : Option ℕ → ℕ
after none = 0
after (some b) = suc b

abbrev pub is_some_state : Option AccountState → Bool
is_some_state none = false
is_some_state (some st) = true

abbrev pub state_at : String → Accounts → AccountState
state_at a m = state_or_default (get a m)

-- The first step at which the lock may be taken, in one account's state and in the map.
unfoldable pub free_from : AccountLock → AccountState → ℕ
free_from l st = after (blocking_step l st)

unfoldable pub bound : AccountLock → Accounts → ℕ
bound l m = free_from l (state_at l.account m)

after-max_readers :
    (b : Option ℕ) (rs : List ℕ) → after (max_readers b rs) ≡ max (after b) (max_of suc rs)
unfolding max_readers
after-max_readers none [] = omega arith
after-max_readers (some b) [] = omega arith
after-max_readers none (r ∷ rs) = omega (arith, after-max_readers (some r) rs)
after-max_readers (some b) (r ∷ rs) = omega (arith, after-max_readers (some (max b r)) rs)

pub free_from_lem :
    (l : AccountLock) (st : AccountState)
    → free_from l st ≡ (
        if l.is_writable
        then max (after st.last_write_step) (max_of suc st.reader_steps_since_write)
        else after st.last_write_step)
unfolding free_from blocking_step
free_from_lem l st =
    ground (arith, after-max_readers st.last_write_step st.reader_steps_since_write)

pub raise_to-blocking_step :
    (e : ℕ) (l : AccountLock) (st : AccountState)
    → raise_to e (blocking_step l st) ≡ max e (free_from l st)
unfolding free_from
raise_to-blocking_step e l st = elim (Option-cases (blocking_step l st)) [
  | inl p ↦ rw p (omega arith)
  | inr (b, p) ↦ rw p (omega arith)
]

-- Taking a lock at a step that it allows makes later conflicting locks wait for that step.
pub free_from-update_account :
    (tx : TxLocks) (s : ℕ) (k l : AccountLock) (st : AccountState)
    → (k.is_writable ≡ true → free_from k st ≤ suc s)
    → free_from l (update_account tx s k st)
      ≡ max (free_from l st) (if k.is_writable || l.is_writable then suc s else 0)
unfolding update_account
free_from-update_account tx s k l st ready =
    rw (free_from_lem l (update_account tx s k st), free_from_lem l st, update_account)
      (ground (arith, free_from_lem k st, max_of-append suc st.reader_steps_since_write (s ∷ [])))

pub state_at-insert :
    (a j : String) (st : AccountState) (m : Accounts)
    → state_at j (insert a st m) ≡ ite (text_eq.dec a j) st (state_at j m)
state_at-insert a j st m = rw (get-insert a j st m) (ground arith)

-- `entry(..).or_default()` changes no account's state, and yields the account's.
pub state_at-entry_or_default :
    (a j : String) (m : Accounts) → state_at j (entry_or_default a m).0 ≡ state_at j m
unfolding entry_or_default
state_at-entry_or_default a j m = elim (Option-cases (get a m)) [
  | inl p ↦ rw (p, entry_or_default) (rw (state_at-insert a j default m) (ground (arith, p)))
  | inr (st, p) ↦ rw (p, entry_or_default)
]

pub entry_or_default-state : (a : String) (m : Accounts) → (entry_or_default a m).1 ≡ state_at a m
unfolding entry_or_default
entry_or_default-state a m = ground arith

-- An account has an entry.
abbrev pub HasEntry : Accounts → String → Type 0
HasEntry m a = is_some_state (get a m) ≡ true

pub HasEntry-insert :
    (a j : String) (st : AccountState) (m : Accounts) → HasEntry m j → HasEntry (insert a st m) j
HasEntry-insert a j st m h = rw (get-insert a j st m) (ground arith)

pub HasEntry-entry_or_default :
    (a j : String) (m : Accounts) → HasEntry m j → HasEntry (entry_or_default a m).0 j
unfolding entry_or_default
HasEntry-entry_or_default a j m h = elim (Option-cases (get a m)) [
  | inl p ↦ rw (p, entry_or_default) (HasEntry-insert a j default m h)
  | inr (st, p) ↦ rw (p, entry_or_default) h
]

pub entry_or_default-HasEntry : (a : String) (m : Accounts) → HasEntry (entry_or_default a m).0 a
unfolding entry_or_default
entry_or_default-HasEntry a m = elim (Option-cases (get a m)) [
  | inl p ↦ rw (p, entry_or_default, get-insert a a default m) (ground arith)
  | inr (st, p) ↦ rw (p, entry_or_default, p)
]
