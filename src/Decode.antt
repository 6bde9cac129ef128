-- ===== src/Decode.antt =====
-- crates/ingest-core/src/rpc_client.rs: from a raw block to a decoded one.
pub mod Programs
pub mod Deltas
pub mod Blocks
use Prim.Native.Char.{code}
use text.Mathlib.Text.{is_lt}
use tenso.Prelude.{
  ℕ, ◌+◌, ◌-◌, ◌*◌, ◌^◌, String, Bool, true, false, ◌&&◌, ◌||◌, Option, none, some, List, [], ◌∷◌,
  ◌++◌, if◌then◌else◌, ite, text_discrete, leb, ltb, ◌==◌, get_elem?,
}
use tenso.Prelude.Int.{ℤ}
use tenso.Types.{TokenBalanceChange, DecodedTransaction, DecodedBlock}
use tenso.Accounts.{MessageHeader, resolve_account_locks}
use tenso.Coalesce.{coalesce_token_deltas}
use tenso.Raw.{
  RawInstruction, RawLoadedAddresses, RawTokenBalance, RawMeta, RawTxWithMeta, RawBlock,
}

-- ids.sort()
unfoldable pub insert_id : String → List String → List String
insert_id x [] = x ∷ []
insert_id x (y ∷ ids) =
    if is_lt (Prim.Native.String.compare y x) then y ∷ insert_id x ids else x ∷ y ∷ ids

unfoldable pub sort_ids : List String → List String
sort_ids [] = []
sort_ids (x ∷ ids) = insert_id x (sort_ids ids)

-- ids.dedup(): an id goes where it equals the last one that was kept.
unfoldable pub dedup_after : String → List String → List String
dedup_after last [] = []
dedup_after last (x ∷ ids) =
    ite (text_discrete x last) (dedup_after last ids) (x ∷ dedup_after x ids)

unfoldable pub dedup : List String → List String
dedup [] = []
dedup (x ∷ ids) = x ∷ dedup_after x ids

-- instructions.iter().filter_map(|ix| full_list.get(ix.program_id_index))
unfoldable pub resolve_programs : List String → List RawInstruction → List String
resolve_programs full_list [] = []
resolve_programs full_list (ix ∷ instructions) = elim (get_elem? full_list ix.program_id_index) [
  | none ↦ resolve_programs full_list instructions
  | some s ↦ s ∷ resolve_programs full_list instructions
]

unfoldable pub extract_program_ids :
    List String → List String → List String → List RawInstruction → List String
extract_program_ids static_keys loaded_writable loaded_readonly instructions =
    dedup
      (sort_ids (resolve_programs (static_keys ++ loaded_writable ++ loaded_readonly) instructions))

-- str::parse::<u64>: an optional sign, at least one digit, no value from 2^64 up.
abbrev digit : ℕ → Option ℕ
digit c = if leb 48 c && leb c 57 then some (c - 48) else none

unfoldable pub parse_digits : String → ℕ → Option ℕ
parse_digits String.[] n = some n
parse_digits (String.◌∷◌ c s) n = elim (digit (code c)) [
  | none ↦ none
  | some d ↦
      let rest = parse_digits s (n * 10 + d) in if ltb (n * 10 + d) (2 ^ 64) then rest else none
]

abbrev parse_some : String → Option ℕ
parse_some String.[] = none
parse_some (String.◌∷◌ c s) = parse_digits (String.◌∷◌ c s) 0

unfoldable pub parse_u64 : String → Option ℕ
parse_u64 String.[] = none
parse_u64 (String.◌∷◌ c s) = if code c == 43 then parse_some s else parse_some (String.◌∷◌ c s)

-- amount.parse().unwrap_or(0)
abbrev pub or_zero : Option ℕ → ℕ
or_zero none = 0
or_zero (some n) = n

unfoldable pub amount_of : RawTokenBalance → ℕ
amount_of b = or_zero (parse_u64 b.ui_token_amount.amount)

-- balances.iter().find(|p| p.account_index == i)
unfoldable pub find_account : ℕ → List RawTokenBalance → Option RawTokenBalance
find_account i [] = none
find_account i (b ∷ balances) = if b.account_index == i then some b else find_account i balances

abbrev pub found_amount : Option RawTokenBalance → ℕ
found_amount none = 0
found_amount (some b) = amount_of b

-- The loop over `post`.
unfoldable pub post_deltas : List RawTokenBalance → List RawTokenBalance → List TokenBalanceChange
post_deltas pre [] = []
post_deltas pre (b ∷ post) =
    let pre_amount = found_amount (find_account b.account_index pre) in
    let post_amount = amount_of b in
    let rest = post_deltas pre post in
    if pre_amount == post_amount
    then rest
    else record {
      mint = b.mint;
      pre_amount = pre_amount;
      post_amount = post_amount;
      decimals = b.ui_token_amount.decimals;
    }
      ∷ rest

abbrev pub is_found : Option RawTokenBalance → Bool
is_found none = false
is_found (some b) = true

-- The loop over `pre`.
unfoldable pub closed_deltas : List RawTokenBalance → List RawTokenBalance → List TokenBalanceChange
closed_deltas post [] = []
closed_deltas post (b ∷ pre) =
    let pre_amount = amount_of b in
    let rest = closed_deltas post pre in
    if is_found (find_account b.account_index post) || (pre_amount == 0)
    then rest
    else record {
      mint = b.mint;
      pre_amount = pre_amount;
      post_amount = 0;
      decimals = b.ui_token_amount.decimals;
    }
      ∷ rest

-- The changes by account, before they are netted by mint.
unfoldable pub account_deltas :
    List RawTokenBalance → List RawTokenBalance → List TokenBalanceChange
account_deltas pre post = post_deltas pre post ++ closed_deltas post pre

unfoldable pub build_token_deltas :
    List RawTokenBalance → List RawTokenBalance → List TokenBalanceChange
build_token_deltas pre post = coalesce_token_deltas (account_deltas pre post)

-- signatures.first().cloned().unwrap_or_default()
abbrev pub first_or_default : List String → String
first_or_default [] = ""
first_or_default (s ∷ signatures) = s

-- .and_then(|m| m.loaded_addresses.clone()).map(..).unwrap_or_default()
abbrev pub addresses : Option RawLoadedAddresses → List String × List String
addresses none = ([], [])
addresses (some la) = (la.writable, la.readonly)

module _ {J : Type 0} where
  abbrev pub loaded : Option (RawMeta J) → List String × List String
  loaded none = ([], [])
  loaded (some m) = addresses m.loaded_addresses

  abbrev pub is_present : Option J → Bool
  is_present none = false
  is_present (some e) = true

  abbrev pub is_failed : Option (RawMeta J) → Bool
  is_failed none = false
  is_failed (some m) = is_present m.err

  abbrev pub deltas_of : Option (RawMeta J) → List TokenBalanceChange
  deltas_of none = []
  deltas_of (some m) = build_token_deltas m.pre_token_balances m.post_token_balances

  -- `none` is the panic of a slice in `resolve_account_locks`. The code's own `Option` is
  -- always `Some`.
  unfoldable pub decode_transaction : ℕ → Option ℤ → RawTxWithMeta J → Option DecodedTransaction
  decode_transaction slot block_time raw =
      let message = raw.transaction.message in
      let header : MessageHeader = record {
        num_required_signatures = message.header.num_required_signatures;
        num_readonly_signed_accounts = message.header.num_readonly_signed_accounts;
        num_readonly_unsigned_accounts = message.header.num_readonly_unsigned_accounts;
      } in
      let (loaded_writable, loaded_readonly) = loaded raw.meta in
      elim (resolve_account_locks message.account_keys header loaded_writable loaded_readonly) [
        | none ↦ none
        | some locks ↦ some (record {
          signature = first_or_default raw.transaction.signatures;
          slot = slot;
          block_time = block_time;
          program_ids =
              extract_program_ids message.account_keys loaded_writable loaded_readonly
                message.instructions;
          locks = locks;
          token_deltas = deltas_of raw.meta;
          failed = is_failed raw.meta;
        })
      ]

  unfoldable pub decode_transactions :
      ℕ → Option ℤ → List (RawTxWithMeta J) → Option (List DecodedTransaction)
  decode_transactions slot block_time [] = some []
  decode_transactions slot block_time (t ∷ transactions) =
      elim (decode_transaction slot block_time t) [
        | none ↦ none
        | some d ↦ elim (decode_transactions slot block_time transactions) [
          | none ↦ none
          | some ds ↦ some (d ∷ ds)
        ]
      ]

  unfoldable pub decode_block : ℕ → RawBlock J → Option DecodedBlock
  decode_block slot raw = elim (decode_transactions slot raw.block_time raw.transactions) [
    | none ↦ none
    | some ds ↦ some (record { slot = slot; block_time = raw.block_time; transactions = ds })
  ]
