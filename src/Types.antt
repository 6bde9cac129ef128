-- ===== src/Types.antt =====
-- crates/ingest-core/src/types.rs: what decoding hands to the rest of the program. A `u64` or `u8`
-- is a number whose range is stated where it matters; a block time is a signed integer.
use tenso.Prelude.{ℕ, String, Bool, Option, List}
use tenso.Prelude.Int.{ℤ}

pub record AccountLock : Type 0 where
  pub account : String
  pub is_writable : Bool

pub record TokenBalanceChange : Type 0 where
  pub mint : String
  pub pre_amount : ℕ
  pub post_amount : ℕ
  pub decimals : ℕ

pub record DecodedTransaction : Type 0 where
  pub signature : String
  pub slot : ℕ
  pub block_time : Option ℤ
  pub program_ids : List String
  pub locks : List AccountLock
  pub token_deltas : List TokenBalanceChange
  pub failed : Bool

pub data SlotStatus : Type 0 where
  ingested skipped failed : SlotStatus

pub record DecodedBlock : Type 0 where
  pub slot : ℕ
  pub block_time : Option ℤ
  pub transactions : List DecodedTransaction
