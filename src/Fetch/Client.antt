-- ===== src/Fetch/Client.antt =====
-- The client of crates/ingest-core/src/rpc_client.rs as the one that `fetch_one` calls.
use tenso.Prelude.{ℕ, ◌≡◌, refl, sym, ap, ◌∙◌, Option, none, some}
use tenso.Types.{DecodedBlock}
use tenso.Decode.Blocks.{decode_block_lem}
use tenso.Retry.{Answer}
use tenso.Rpc.{
  RpcError, Decoded, SerdeJson, FromValue, decode_error, decode_get_block_json, decode_envelope,
}
use tenso.Rpc.Client.{Reqwest, RpcClient, decoded, get_block_raw, get_block}
use tenso.Fetch.{FetchOutcome, fetch_one, fetch_one_lem, fetch_outcome_slot}
use tenso.Fetch.Pool.Outcomes.{AnswersSlots}

-- An answer, and for the slot if it is a block.
abbrev pub AnswersFor : ℕ → Decoded → Type 0
AnswersFor slot d =
    (a : Answer RpcError DecodedBlock) × (d ≡ decoded a)
    × ((block : DecodedBlock) → a ≡ Answer.ok block → block.slot ≡ slot)

err-AnswersFor : (slot : ℕ) (e : RpcError) → AnswersFor slot (Decoded.error e)
err-AnswersFor slot e = (Answer.err e, refl, λ block h. absurd (cc (h)))

module _ (j : SerdeJson) where
  decode-AnswersFor :
      (slot : ℕ) (value : j.J) → AnswersFor slot (decode_get_block_json j slot value)
  unfolding decode_get_block_json
  decode-AnswersFor slot value = by_error (j.get value "error") (j.from_value value)
    where
      by_error :
          (o : Option j.J) (r : FromValue j.J)
          → AnswersFor slot (elim o [
            | some err ↦ Decoded.error (decode_error j err)
            | none ↦ decode_envelope j slot r
          ])
      by_error (some err) r = err-AnswersFor slot (decode_error j err)
      by_error none (FromValue.bad_shape e) = err-AnswersFor slot _
      by_error none (FromValue.envelope none) = err-AnswersFor slot _
      by_error none (FromValue.envelope (some raw)) =
          let (b, ran, same, _, _) = decode_block_lem slot raw in
          (
            Answer.ok b,
            rw (decode_envelope, ran) refl,
            λ block h. let e : b ≡ block = cc (h) in sym (ap (λ b. b.slot) e) ∙ same,
          )

  module _ (http : Reqwest j) (client : RpcClient) where
    -- Whatever the server sends, the client does not panic: it answers with a block or an error,
    -- and a block has the slot that was asked for.
    pub get_block_lem : (slot n : ℕ) → AnswersFor slot (get_block j http client slot n)
    unfolding get_block
    get_block_lem slot n = by_answer (get_block_raw j http client slot n)
      where
        by_answer :
            (r : Answer RpcError j.J)
            → AnswersFor slot (elim r [
              | Answer.err e ↦ Decoded.error e
              | Answer.ok value ↦ decode_get_block_json j slot value
            ])
        by_answer (Answer.err e) = err-AnswersFor slot e
        by_answer (Answer.ok value) = decode-AnswersFor slot value

    -- The answers of the client, to the calls of `retry_with_backoff` for a slot.
    abbrev pub answers : ℕ → ℕ → Answer RpcError DecodedBlock
    answers slot n = (get_block_lem slot n).0

    pub answers-AnswersSlots : AnswersSlots answers
    answers-AnswersSlots slot n = (get_block_lem slot n).2

    -- Whatever the server sends, once the limiter grants a token `fetch_one` over the client ends, with an outcome for the slot
    -- that was asked for.
    pub fetch_one-get_block :
        (slot : ℕ)
        → (o : FetchOutcome) × (fetch_one (some tt) (answers slot) slot ≡ some o)
          × (fetch_outcome_slot o ≡ slot)
    fetch_one-get_block slot = fetch_one_lem (answers slot) slot (answers-AnswersSlots slot)
