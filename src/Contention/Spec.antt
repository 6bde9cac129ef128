-- ===== src/Contention/Spec.antt =====
-- The schedule that the README of the repository describes, without any account state: a
-- transaction runs one step after the last of the earlier transactions that it conflicts with.
use tenso.Prelude.{ℕ, suc, Bool, false, ◌||◌, List, [], ◌∷◌, ◌++◌, if◌then◌else◌, text_eq, ite}
use tenso.Prelude.Bounds.{max_of}
use tenso.Contention.{AccountLock, TxLocks}

-- Two locks of one account conflict unless both only read.
unfoldable pub lock_conflict : AccountLock → AccountLock → Bool
lock_conflict k l = ite (text_eq.dec k.account l.account) (k.is_writable || l.is_writable) false

unfoldable pub any_conflict : List AccountLock → AccountLock → Bool
any_conflict [] l = false
any_conflict (k ∷ ks) l = lock_conflict k l || any_conflict ks l

-- The transaction `p` conflicts with `q`.
unfoldable pub conflict : TxLocks → List AccountLock → Bool
conflict p [] = false
conflict p (l ∷ ls) = any_conflict p.locks l || conflict p ls

-- A transaction with the step that it was given.
abbrev pub Placed : Type 0
Placed = TxLocks × ℕ

unfoldable pub reference_step : List Placed → TxLocks → ℕ
reference_step past q = max_of (λ e. if conflict e.0 q.locks then suc e.1 else 0) past

unfoldable pub reference_steps : List Placed → List TxLocks → List ℕ
unfolding reference_step
reference_steps past [] = []
reference_steps past (q ∷ qs) =
    let s = reference_step past q in s ∷ reference_steps (past ++ (q, s) ∷ []) qs
