-- ===== src/Decode/Blocks.antt =====
-- Decoding a block is total, and keeps its transactions in their places.
use tenso.Prelude.{ℕ, ◌≡◌, refl, Option, some, List, [], ◌∷◌}
use tenso.Prelude.Int.{ℤ}
use tenso.Types.{DecodedTransaction, DecodedBlock}
use tenso.Raw.{RawTxWithMeta, RawBlock}
use tenso.Accounts.Split.{resolve_account_locks_lem}
use tenso.Decode.{
  decode_transaction, decode_transactions, decode_block, first_or_default, is_failed, loaded,
}

module _ {J : Type 0} where
  -- What a decoded transaction owes to the raw one.
  abbrev pub Decodes : ℕ → Option ℤ → RawTxWithMeta J → DecodedTransaction → Type 0
  Decodes slot block_time raw t =
      (t.signature ≡ first_or_default raw.transaction.signatures)
      × (t.slot ≡ slot)
      × (t.block_time ≡ block_time)
      × (t.failed ≡ is_failed raw.meta)

  decode_transaction_lem :
      (slot : ℕ) (block_time : Option ℤ) (raw : RawTxWithMeta J)
      → (t : DecodedTransaction) × (decode_transaction slot block_time raw ≡ some t)
        × Decodes slot block_time raw t
  unfolding decode_transaction
  decode_transaction_lem slot block_time raw =
      rw
        (
          decode_transaction,
          resolve_account_locks_lem raw.transaction.message.account_keys _ (loaded raw.meta).0
              (loaded raw.meta).1,
        )
        (_, refl, (refl, refl, refl, refl))

  -- The same of two lists, place by place; lists of two lengths do not match.
  pub EachDecodes : ℕ → Option ℤ → List (RawTxWithMeta J) → List DecodedTransaction → Type 0
  EachDecodes slot block_time [] [] = Unit {0}
  EachDecodes slot block_time [] (t ∷ ts) = ⊥
  EachDecodes slot block_time (raw ∷ raws) [] = ⊥
  EachDecodes slot block_time (raw ∷ raws) (t ∷ ts) =
      Decodes slot block_time raw t × EachDecodes slot block_time raws ts

  decode_transactions_lem :
      (slot : ℕ) (block_time : Option ℤ) (raws : List (RawTxWithMeta J))
      → (ts : List DecodedTransaction) × (decode_transactions slot block_time raws ≡ some ts)
        × EachDecodes slot block_time raws ts
  unfolding decode_transactions EachDecodes
  decode_transactions_lem slot block_time [] = ([], refl, tt)
  decode_transactions_lem slot block_time (raw ∷ raws) =
      let (t, one, is) = decode_transaction_lem slot block_time raw in
      let (ts, rest, each) = decode_transactions_lem slot block_time raws in
      (t ∷ ts, rw (decode_transactions, one, rest) refl, (is, each))

  -- Decoding a block panics nowhere and drops no transaction: the decoded transactions stand in
  -- the places of the raw ones, each with the first signature, the slot, the block time and the
  -- failure of its raw transaction.
  pub decode_block_lem :
      (slot : ℕ) (raw : RawBlock J)
      → (b : DecodedBlock) × (decode_block slot raw ≡ some b)
        × (b.slot ≡ slot)
        × (b.block_time ≡ raw.block_time)
        × EachDecodes slot raw.block_time raw.transactions b.transactions
  unfolding decode_block
  decode_block_lem slot raw =
      let (ts, all, each) = decode_transactions_lem slot raw.block_time raw.transactions in
      rw (decode_block, all) (_, refl, refl, refl, each)
