-- ===== src/Tests/Decoding.antt =====
-- A transaction with two token accounts of one mint, one of them closed.
use tenso.Prelude.{
  ℕ, ◌≡◌, refl, sym, ◌∙◌, ◌+◌, ◌^◌, ◌<◌, ◌==◌, String, none, some, List, [], ◌∷◌, map, All, arith,
  ite, text_discrete, inl, inr, Bool-cases, text_eq,
}
use tenso.Prelude.Int.{pos, sub_ℕ}
use tenso.Types.{DecodedBlock}
use tenso.Coalesce.{from_delta}
use tenso.Coalesce.Loop.{net_of}
use tenso.Raw.{RawTokenBalance, RawInstruction, RawTxWithMeta, RawBlock}
use tenso.Decode.{build_token_deltas, amount_of, find_account, parse_u64, decode_block}
use tenso.Decode.Deltas.{total, SameMint, net_of-build_token_deltas}
use tenso.Decode.Blocks.{EachDecodes, decode_block_lem}

parse_numbers :
    (parse_u64 "120" ≡ some 120)
    × (parse_u64 "" ≡ none)
    × (parse_u64 "1x" ≡ none)
    × (parse_u64 "18446744073709551616" ≡ none)
unfolding parse_u64 tenso.Decode.parse_digits
parse_numbers = (refl, refl, refl, refl)

abbrev balance : ℕ → String → RawTokenBalance
balance index amount = record {
  account_index = index;
  mint = "usdt";
  ui_token_amount = record { amount = amount; decimals = 6 };
}

abbrev before : List RawTokenBalance
before = balance 1 "50" ∷ balance 4 "30" ∷ []

abbrev after : List RawTokenBalance
after = balance 1 "65" ∷ []

found_mint :
    (i : ℕ) (bs : List RawTokenBalance) (b : RawTokenBalance)
    → All (λ x. x.mint ≡ "usdt") bs
    → find_account i bs ≡ some b
    → b.mint ≡ "usdt"
unfolding find_account
found_mint i [] b a h = absurd (cc (h))
found_mint i (x ∷ bs) b a h = elim (Bool-cases (x.account_index == i)) [
  | inl e ↦ let same : some x ≡ some b = rw e at h in cc (same, a.0)
  | inr e ↦ found_mint i bs b a.1 (rw e at h)
]

one_mint : SameMint before after
one_mint i p b hp hb =
    found_mint i before p (refl, (refl, tt)) hp ∙ sym (found_mint i after b (refl, tt) hb)

small_either :
    (m : String) (c : Dec ("usdt" ≡ m))
    → (ite c 50 0 + (ite c 30 0 + 0) < 2 ^ 64) × (ite c 65 0 + 0 < 2 ^ 64)
small_either m (yes p) = (omega arith, omega arith)
small_either m (no p) = (omega arith, omega arith)

totals_small : (m : String) → (total m before < 2 ^ 64) × (total m after < 2 ^ 64)
unfolding total amount_of parse_u64 tenso.Decode.parse_digits
totals_small m = small_either m (text_discrete "usdt" m)

net_of-build_token_deltas_example :
    net_of "usdt" (map from_delta (build_token_deltas before after))
    ≡ sub_ℕ (total "usdt" after) (total "usdt" before)
net_of-build_token_deltas_example =
    net_of-build_token_deltas before after "usdt" ((cc, tt), (tt, tt)) (tt, tt) one_mint
      totals_small

abbrev instruction : ℕ → RawInstruction
instruction index = record { program_id_index = index }

abbrev instructions : List RawInstruction
instructions = instruction 1 ∷ instruction 2 ∷ instruction 1 ∷ instruction 9 ∷ []

abbrev raw_tx : RawTxWithMeta (Unit {0})
raw_tx = record {
  transaction = record {
    message = record {
      account_keys = "payer" ∷ "token" ∷ [];
      header = record {
        num_required_signatures = 1;
        num_readonly_signed_accounts = 0;
        num_readonly_unsigned_accounts = 1;
      };
      instructions = instructions;
    };
    signatures = "sig" ∷ [];
  };
  meta = some (record {
    err = none;
    pre_token_balances = before;
    post_token_balances = after;
    loaded_addresses = none;
  });
}

abbrev raw_block : RawBlock (Unit {0})
raw_block = record { block_time = some (pos 9); transactions = raw_tx ∷ raw_tx ∷ [] }

decode_block_example :
    (b : DecodedBlock) × (decode_block 7 raw_block ≡ some b)
    × (b.slot ≡ 7)
    × (b.block_time ≡ some (pos 9))
    × EachDecodes 7 (some (pos 9)) raw_block.transactions b.transactions
decode_block_example = decode_block_lem 7 raw_block
