-- ===== src/Contention.antt =====
-- crates/contention/src/lib.rs: the order-preserving schedule of a block, rebuilt from the locks
-- of its transactions. `none` stands for the panic of `get_mut(..).unwrap()`.
-- A step is a `usize`; it stays below the number of transactions, so it is a plain number here.
pub mod Spec
pub mod Bound
pub mod Locks
pub mod Schedule
pub mod Shape
pub mod Least
pub mod Widths
pub mod Conflicts
use tenso.Prelude.{
  ℕ, ◌+◌, max, String, Bool, true, false, ◌||◌, not, Option, none, some, List, [], ◌∷◌, ◌++◌,
  if◌then◌else◌, text_eq, number_eq,
}
use tenso.Prelude.Maps.{get, insert}

pub record AccountLock : Type 0 where
  pub account : String
  pub is_writable : Bool

unfoldable pub write : String → AccountLock
write account = record { account = account; is_writable = true }

unfoldable pub read : String → AccountLock
read account = record { account = account; is_writable = false }

pub record TxLocks : Type 0 where
  pub signature : String
  pub program_ids : List String
  pub locks : List AccountLock

pub record ConflictEvent : Type 0 where
  pub account : String
  pub tx_signature : String
  pub program_ids : List String
  pub step : ℕ
  pub caused_by_write : Bool

pub record ScheduleResult : Type 0 where
  pub steps : List ℕ
  pub depth : ℕ
  pub width_per_step : List (ℕ × ℕ)
  pub conflicts : List ConflictEvent

pub record AccountState : Type 0 where
  pub last_write_step : Option ℕ
  pub reader_steps_since_write : List ℕ

-- #[derive(Default)]
abbrev pub default : AccountState
default = record { last_write_step = none; reader_steps_since_write = [] }

-- account_state: HashMap<&str, AccountState>
abbrev pub Accounts : Type 0
Accounts = List (String × AccountState)

abbrev pub state_or_default : Option AccountState → AccountState
state_or_default none = default
state_or_default (some st) = st

-- account_state.entry(account).or_default(): the map with an entry for the account, and the entry
unfoldable pub entry_or_default : String → Accounts → Accounts × AccountState
entry_or_default account m = elim (get account m) [
  | none ↦ (insert account default m, default)
  | some st ↦ (m, st)
]

-- the loop over `reader_steps_since_write`
unfoldable pub max_readers : Option ℕ → List ℕ → Option ℕ
max_readers b [] = b
max_readers none (r ∷ rs) = max_readers (some r) rs
max_readers (some cur) (r ∷ rs) = max_readers (some (max cur r)) rs

unfoldable pub blocking_step : AccountLock → AccountState → Option ℕ
unfolding max_readers
blocking_step lock st =
    if lock.is_writable
    then max_readers st.last_write_step st.reader_steps_since_write
    else st.last_write_step

abbrev pub raise_to : ℕ → Option ℕ → ℕ
raise_to earliest none = earliest
raise_to earliest (some b) = max earliest (b + 1)

-- Step 1: the loop over `tx.locks` that computes `earliest`.
unfoldable pub earliest_step : List AccountLock → Accounts → ℕ → Accounts × ℕ
earliest_step [] m earliest = (m, earliest)
earliest_step (lock ∷ locks) m earliest =
    let (m', st) = entry_or_default lock.account m in
    earliest_step locks m' (raise_to earliest (blocking_step lock st))

abbrev pub is_some : Option ℕ → Bool
is_some none = false
is_some (some n) = true

abbrev pub is_empty : List ℕ → Bool
is_empty [] = true
is_empty (r ∷ rs) = false

unfoldable pub had_prior_activity : AccountState → Bool
had_prior_activity st = is_some st.last_write_step || not (is_empty st.reader_steps_since_write)

-- One round of step 2: the account's new state, and the event that is pushed, if any.
unfoldable pub update_account : TxLocks → ℕ → AccountLock → AccountState → AccountState
update_account tx step lock st =
    if lock.is_writable
    then record { last_write_step = some step; reader_steps_since_write = [] }
    else record st { reader_steps_since_write = st.reader_steps_since_write ++ step ∷ [] }

unfoldable pub conflict_event : TxLocks → ℕ → AccountLock → AccountState → List ConflictEvent
unfolding had_prior_activity
conflict_event tx step lock st =
    if lock.is_writable
    then (if had_prior_activity st
        then record {
          account = lock.account;
          tx_signature = tx.signature;
          program_ids = tx.program_ids;
          step = step;
          caused_by_write = true;
        }
          ∷ []
        else [])
    else []

-- Step 2: the loop over `tx.locks` that records conflicts and updates the accounts.
unfoldable pub update_accounts :
    TxLocks
    → ℕ
    → List AccountLock
    → Accounts
    → List ConflictEvent
    → Option (Accounts × List ConflictEvent)
update_accounts tx step [] m conflicts = some (m, conflicts)
update_accounts tx step (lock ∷ locks) m conflicts = elim (get lock.account m) [
  | none ↦ none
  | some st ↦
      update_accounts tx step locks (insert lock.account (update_account tx step lock st) m)
        (conflicts ++ conflict_event tx step lock st)
]

-- The loop over the transactions.
unfoldable pub schedule_txs :
    List TxLocks → Accounts → List ℕ → List ConflictEvent → Option (List ℕ × List ConflictEvent)
schedule_txs [] m steps conflicts = some (steps, conflicts)
schedule_txs (tx ∷ txs) m steps conflicts =
    let (m', assigned_step) = earliest_step tx.locks m 0 in
    elim (update_accounts tx assigned_step tx.locks m' conflicts) [
      | none ↦ none
      | some (m'', conflicts') ↦ schedule_txs txs m'' (steps ++ assigned_step ∷ []) conflicts'
    ]

abbrev pub width_or_zero : Option ℕ → ℕ
width_or_zero none = 0
width_or_zero (some w) = w

-- *width_per_step.entry(s).or_insert(0) += 1, for each step
unfoldable pub count_widths : List ℕ → List (ℕ × ℕ) → List (ℕ × ℕ)
count_widths [] widths = widths
count_widths (s ∷ steps) widths =
    count_widths steps (insert s (width_or_zero (get s widths) + 1) widths)

-- steps.iter().max()
unfoldable pub max_step : List ℕ → Option ℕ
max_step [] = none
max_step (s ∷ steps) = elim (max_step steps) [ none ↦ some s | some m ↦ some (max s m) ]

-- .map(|m| m + 1).unwrap_or(0)
unfoldable pub depth_of : List ℕ → ℕ
unfolding max_step
depth_of steps = elim (max_step steps) [ none ↦ 0 | some m ↦ m + 1 ]

unfoldable pub build_schedule : List TxLocks → Option ScheduleResult
build_schedule txs = elim (schedule_txs txs [] [] []) [
  | none ↦ none
  | some (steps, conflicts) ↦ some (record {
    steps = steps;
    depth = depth_of steps;
    width_per_step = count_widths steps [];
    conflicts = conflicts;
  })
]
