-- ===== src/Rpc.antt =====
-- crates/ingest-core/src/rpc_client.rs: the errors of a request and the envelope of a response.
-- `SerdeJson` stands for `serde_json::Value`: its lookups, and its reading of the envelope.
pub mod Client
use Prim.Native.Char.{code}
use tenso.Prelude.{
  ℕ, ◌+◌, String, Bool, true, false, ◌&&◌, ◌||◌, Option, none, some, List, [], ◌∷◌, map,
  if◌then◌else◌, leb, ◌==◌, ite,
}
use tenso.Prelude.Int.{ℤ, negsuc, ℤ_discrete}
use tenso.Types.{DecodedBlock}
use tenso.Raw.{RawBlock}
use tenso.Decode.{decode_block}

-- `Transport` carries the display of its error.
pub data RpcError : Type 0 where
  transport rpc_returned_error unexpected_shape : String → RpcError
  slot_skipped : RpcError

abbrev pub codes : String → List ℕ
codes String.[] = []
codes (String.◌∷◌ c s) = code c ∷ codes s

abbrev pub lower : ℕ → ℕ
lower c = if leb 65 c && leb c 90 then c + 32 else c

unfoldable pub to_ascii_lowercase : List ℕ → List ℕ
to_ascii_lowercase = map lower

unfoldable pub starts_with : List ℕ → List ℕ → Bool
starts_with xs [] = true
starts_with [] (y ∷ ys) = false
starts_with (x ∷ xs) (y ∷ ys) = (x == y) && starts_with xs ys

unfoldable pub contains : List ℕ → List ℕ → Bool
contains [] part = starts_with [] part
contains (x ∷ xs) part = starts_with (x ∷ xs) part || contains xs part

unfoldable pub is_transient : RpcError → Bool
is_transient (transport e) = true
is_transient (rpc_returned_error msg) =
    let m = to_ascii_lowercase (codes msg) in
    contains m (codes "429") || contains m (codes "too many") || contains m (codes "rate limit")
is_transient (unexpected_shape e) = false
is_transient slot_skipped = false

-- Some(-32004 | -32007 | -32009)
abbrev pub is_unavailable_code : Option ℤ → Bool
is_unavailable_code none = false
is_unavailable_code (some c) =
    ite (ℤ_discrete c (negsuc 32003)) true
      (ite (ℤ_discrete c (negsuc 32006)) true (ite (ℤ_discrete c (negsuc 32008)) true false))

unfoldable pub is_slot_unavailable : String → Option ℤ → Bool
is_slot_unavailable message code =
    let m = to_ascii_lowercase (codes message) in
    is_unavailable_code code
    || (contains m (codes "skipped")
        || (contains m (codes "missing") || contains m (codes "block not available")))

pub data Decoded : Type 0 where
  block : DecodedBlock → Decoded
  error : RpcError → Decoded
  panic : Decoded

pub data FromValue (J : Type 0) : Type 0 where
  envelope : Option (RawBlock J) → FromValue J
  bad_shape : String → FromValue J

pub record SerdeJson : Type 1 where
  pub J : Type 0
  pub get : J → String → Option J
  pub as_str : J → Option String
  pub as_i64 : J → Option ℤ
  -- serde_json::from_value::<RpcEnvelope<RawBlock>>
  pub from_value : J → FromValue J

module _ (j : SerdeJson) where
  open j use {J, get, as_str, as_i64, from_value}

  abbrev str_or : String → Option J → String
  str_or default none = default
  str_or default (some m) = elim (as_str m) [ none ↦ default | some s ↦ s ]

  unfoldable pub error_message : J → String
  error_message err = str_or "rpc error" (get err "message")

  unfoldable pub error_code : J → Option ℤ
  error_code err = elim (get err "code") [ none ↦ none | some c ↦ as_i64 c ]

  unfoldable pub decode_error : J → RpcError
  decode_error err =
      if is_slot_unavailable (error_message err) (error_code err)
      then slot_skipped
      else rpc_returned_error (error_message err)

  abbrev pub decode_envelope : ℕ → FromValue J → Decoded
  decode_envelope slot (bad_shape e) = error (unexpected_shape e)
  decode_envelope slot (envelope none) = error (unexpected_shape "missing result")
  decode_envelope slot (envelope (some raw)) = elim (decode_block slot raw) [
    | none ↦ panic
    | some b ↦ block b
  ]

  unfoldable pub decode_get_block_json : ℕ → J → Decoded
  decode_get_block_json slot value = elim (get value "error") [
    | some err ↦ error (decode_error err)
    | none ↦ decode_envelope slot (from_value value)
  ]
