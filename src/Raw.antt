-- ===== src/Raw.antt =====
-- crates/ingest-core/src/rpc_client.rs: the shapes of a raw `getBlock` response. `J` is
-- `serde_json::Value`, of which decoding asks no more than whether it is there.
use tenso.Prelude.{ℕ, String, Option, List}
use tenso.Prelude.Int.{ℤ}

pub record RawHeader : Type 0 where
  pub num_required_signatures : ℕ
  pub num_readonly_signed_accounts : ℕ
  pub num_readonly_unsigned_accounts : ℕ

pub record RawInstruction : Type 0 where
  pub program_id_index : ℕ

pub record RawMessage : Type 0 where
  pub account_keys : List String
  pub header : RawHeader
  pub instructions : List RawInstruction

pub record RawTransaction : Type 0 where
  pub message : RawMessage
  pub signatures : List String

pub record RawLoadedAddresses : Type 0 where
  pub writable : List String
  pub readonly : List String

pub record RawUiTokenAmount : Type 0 where
  pub amount : String
  pub decimals : ℕ

pub record RawTokenBalance : Type 0 where
  pub account_index : ℕ
  pub mint : String
  pub ui_token_amount : RawUiTokenAmount

module _ (J : Type 0) where
  pub record RawMeta : Type 0 where
    pub err : Option J
    pub pre_token_balances : List RawTokenBalance
    pub post_token_balances : List RawTokenBalance
    pub loaded_addresses : Option RawLoadedAddresses

  pub record RawTxWithMeta : Type 0 where
    pub transaction : RawTransaction
    pub meta : Option RawMeta

  pub record RawBlock : Type 0 where
    pub block_time : Option ℤ
    pub transactions : List RawTxWithMeta
