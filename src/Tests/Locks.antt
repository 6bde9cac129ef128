-- ===== src/Tests/Locks.antt =====
-- The locks of a transaction with four static keys and one loaded address of each kind.
use tenso.Prelude.{◌≡◌, refl, String, not, some, List, [], ◌∷◌, ◌++◌, map}
use tenso.Accounts.{
  MessageHeader, split_static_keys, resolve_account_locks, writable_lock, readonly_lock,
}
use tenso.Accounts.Split.{pick, is_writable_index, resolve_account_locks_lem}

abbrev keys : List String
keys = "payer" ∷ "cosigner" ∷ "pool" ∷ "program" ∷ []

abbrev header : MessageHeader
header = record {
  num_required_signatures = 2;
  num_readonly_signed_accounts = 1;
  num_readonly_unsigned_accounts = 1;
}

split_keys :
    split_static_keys keys header ≡ some ("payer" ∷ "pool" ∷ [], "cosigner" ∷ "program" ∷ [])
unfolding split_static_keys tenso.Accounts.slice
split_keys = refl

resolve_account_locks_example :
    resolve_account_locks keys header ("vault" ∷ []) ("mint" ∷ [])
    ≡ some (
        map writable_lock (pick (is_writable_index header 4) 0 keys ++ "vault" ∷ [])
        ++ map readonly_lock (pick (λ i. not (is_writable_index header 4 i)) 0 keys ++ "mint" ∷ []))
resolve_account_locks_example = resolve_account_locks_lem keys header ("vault" ∷ []) ("mint" ∷ [])
