-- ===== src/Accounts.antt =====
-- crates/ingest-core/src/account_resolution.rs: the ordered account locks of a transaction, from
-- its static keys, its header and the addresses that lookup tables loaded.
-- `none` stands for the panic of a slice whose range is out of order or out of bounds.
pub mod Split
use tenso.Prelude.{
  ℕ, ◌+◌, ◌-◌, min, String, true, false, Option, none, some, List, ◌++◌, map, if◌then◌else◌, ◌&&◌,
  leb, length, take, drop,
}
use tenso.Types.{AccountLock}

pub record MessageHeader : Type 0 where
  pub num_required_signatures : ℕ
  pub num_readonly_signed_accounts : ℕ
  pub num_readonly_unsigned_accounts : ℕ

-- &xs[from..to]
unfoldable pub slice : {A : Type 0} → List A → ℕ → ℕ → Option (List A)
slice xs from to =
    if leb from to && leb to (length xs) then some (take (to - from) (drop from xs)) else none

infixl 5 ◌>>=◌
abbrev pub ◌>>=◌ : {A B : Type 0} → Option A → (A → Option B) → Option B
none >>= f = none
some a >>= f = f a

-- `saturating_sub` on `usize` is the subtraction of the natural numbers.
unfoldable pub split_static_keys : List String → MessageHeader → Option (List String × List String)
split_static_keys static_keys header = do
  let n = length static_keys
  let num_sig = header.num_required_signatures
  let signed_writable_count = num_sig - header.num_readonly_signed_accounts
  let non_signer_count = n - num_sig
  let unsigned_writable_count = non_signer_count - header.num_readonly_unsigned_accounts
  signed_writable ← slice static_keys 0 (min signed_writable_count n)
  signed_readonly ← slice static_keys (min signed_writable_count n) (min num_sig n)
  let unsigned_writable_start = min num_sig n
  let unsigned_writable_end = min (num_sig + unsigned_writable_count) n
  unsigned_writable ← slice static_keys unsigned_writable_start unsigned_writable_end
  unsigned_readonly ← slice static_keys unsigned_writable_end n
  some (signed_writable ++ unsigned_writable, signed_readonly ++ unsigned_readonly)

abbrev pub writable_lock : String → AccountLock
writable_lock a = record { account = a; is_writable = true }

abbrev pub readonly_lock : String → AccountLock
readonly_lock a = record { account = a; is_writable = false }

unfoldable pub resolve_account_locks :
    List String → MessageHeader → List String → List String → Option (List AccountLock)
resolve_account_locks static_keys header loaded_writable loaded_readonly = do
  (static_writable, static_readonly) ← split_static_keys static_keys header
  some (
      map writable_lock (static_writable ++ loaded_writable)
      ++ map readonly_lock (static_readonly ++ loaded_readonly))
