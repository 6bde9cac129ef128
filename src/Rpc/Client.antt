-- ===== src/Rpc/Client.antt =====
-- crates/ingest-core/src/rpc_client.rs: `RpcClient` and its requests.
-- `Reqwest` stands for the HTTP client and for the macro `json!`: `post endpoint body n` is what
-- request number `n` of the program answers, read as JSON, or the text of the transport error.
use Prim.Native.String.{◌++◌}
use tenso.Prelude.{ℕ, String, Option, none, some, List, [], ◌∷◌, Bool, false}
use tenso.Types.{DecodedBlock}
use tenso.Retry.{Answer}
use tenso.Rpc.{RpcError, transport, unexpected_shape, Decoded, SerdeJson, decode_get_block_json}

pub record Reqwest (j : SerdeJson) : Type 0 where
  pub object : List (String × j.J) → j.J
  pub array : List j.J → j.J
  pub string : String → j.J
  pub number : ℕ → j.J
  pub boolean : Bool → j.J
  pub as_u64 : j.J → Option ℕ
  pub show : j.J → String
  pub post : String → j.J → ℕ → Answer String j.J

pub record RpcClient : Type 0 where
  pub endpoint : String

-- decoded
abbrev pub decoded : Answer RpcError DecodedBlock → Decoded
decoded (Answer.ok b) = Decoded.block b
decoded (Answer.err e) = Decoded.error e

module _ (j : SerdeJson) (http : Reqwest j) where
  open http use {object, array, string, number, boolean, as_u64, show, post}

  abbrev pub get_slot_body : j.J
  get_slot_body = object (
      ("jsonrpc", string "2.0")
      ∷ ("id", number 1)
      ∷ ("method", string "getSlot")
      ∷ ("params", array (object (("commitment", string "finalized") ∷ []) ∷ []))
      ∷ [])

  abbrev pub get_block_body : ℕ → j.J
  get_block_body slot = object (
      ("jsonrpc", string "2.0")
      ∷ ("id", number 1)
      ∷ ("method", string "getBlock")
      ∷ (
        "params",
        array (
            number slot
            ∷ object (
                ("encoding", string "json")
                ∷ ("maxSupportedTransactionVersion", number 0)
                ∷ ("transactionDetails", string "full")
                ∷ ("rewards", boolean false)
                ∷ ("commitment", string "finalized")
                ∷ [])
            ∷ []),
      )
      ∷ [])

  -- `?` on a reqwest::Error
  abbrev sent : Answer String j.J → Answer RpcError j.J
  sent (Answer.ok resp) = Answer.ok resp
  sent (Answer.err e) = Answer.err (transport e)

  unfoldable pub get_slot : RpcClient → ℕ → Answer RpcError ℕ
  get_slot client n = elim (sent (post client.endpoint get_slot_body n)) [
    | Answer.err e ↦ Answer.err e
    | Answer.ok resp ↦ elim (j.get resp "result") [
      | none ↦ Answer.err (unexpected_shape ("getSlot: " ++ show resp))
      | some v ↦ elim (as_u64 v) [
        | none ↦ Answer.err (unexpected_shape ("getSlot: " ++ show resp))
        | some slot ↦ Answer.ok slot
      ]
    ]
  ]

  unfoldable pub get_block_raw : RpcClient → ℕ → ℕ → Answer RpcError j.J
  get_block_raw client slot n = sent (post client.endpoint (get_block_body slot) n)

  unfoldable pub get_block : RpcClient → ℕ → ℕ → Decoded
  get_block client slot n = elim (get_block_raw client slot n) [
    | Answer.err e ↦ Decoded.error e
    | Answer.ok value ↦ decode_get_block_json j slot value
  ]
