-- ===== src/Pipeline/Stage.antt =====
-- The store stage: its counters, and the bound on the batch that it holds.
use tenso.Prelude.{
  ℕ, suc, ◌+◌, ◌<◌, ◌≡◌, refl, sym, ◌∙◌, String, Bool, none, some, List, [], ◌∷◌, length, leb,
  arith, Bool-cases, inl, inr,
}
use tenso.Pipeline.{
  ParsedOutcome, StoreState, store_outcome, flush_full, store_loop, flush_rest, store_stage,
}
use tenso.Storage.{ok, err, upsert_ingestion_status}
use tenso.Storage.Runs.{Result-cases}

-- The slots that the stage has counted.
abbrev pub counted : StoreState → ℕ
counted s = s.ingested + s.skipped + s.failed

module _ (fault : ℕ → Bool) (to_json : List String → String) where
  store_outcome-counted :
      (p : ParsedOutcome) (s : StoreState)
      → (store_outcome fault to_json p s).0 ≡ ok tt
      → counted (store_outcome fault to_json p s).1 ≡ suc (counted s)
  unfolding store_outcome
  store_outcome-counted (ParsedOutcome.ingested block) s h =
      elim (Result-cases (upsert_ingestion_status fault block.slot "ingested" none s.conn).0) [
        | inl (u, e) ↦ rw (store_outcome, e) (omega arith)
        | inr (e', e) ↦ absurd (let bad : err e' ≡ ok tt = rw (store_outcome, e) at h in cc (bad))
      ]
  store_outcome-counted (ParsedOutcome.skipped slot) s h =
      elim (Result-cases (upsert_ingestion_status fault slot "skipped" none s.conn).0) [
        | inl (u, e) ↦ rw (store_outcome, e) (omega arith)
        | inr (e', e) ↦ absurd (let bad : err e' ≡ ok tt = rw (store_outcome, e) at h in cc (bad))
      ]
  store_outcome-counted (ParsedOutcome.failed slot error) s h =
      elim (Result-cases (upsert_ingestion_status fault slot "failed" (some error) s.conn).0) [
        | inl (u, e) ↦ rw (store_outcome, e) (omega arith)
        | inr (e', e) ↦ absurd (let bad : err e' ≡ ok tt = rw (store_outcome, e) at h in cc (bad))
      ]

  flush_full-counted :
      (batch_size : ℕ) (s : StoreState)
      → counted (flush_full fault to_json batch_size s) ≡ counted s
  unfolding flush_full
  flush_full-counted batch_size s = elim (Bool-cases (leb batch_size (length s.pending_batch))) [
    | inl t ↦ rw t refl
    | inr t ↦ rw t refl
  ]

  flush_full-below :
      (batch_size : ℕ) (s : StoreState)
      → 0 < batch_size
      → length (flush_full fault to_json batch_size s).pending_batch < batch_size
  unfolding flush_full
  flush_full-below batch_size s h = elim (Bool-cases (leb batch_size (length s.pending_batch))) [
    | inl t ↦ rw t (ground arith)
    | inr t ↦ rw t (ground arith)
  ]

  -- For a positive batch size, a loop of the store stage that ends without an error, begun with
  -- fewer blocks pending than the batch size, has counted every outcome just once as ingested,
  -- skipped or failed, and holds fewer blocks than the batch size.
  pub store_loop-counted :
      (batch_size : ℕ) (parsed : List ParsedOutcome) (s : StoreState)
      → 0 < batch_size
      → length s.pending_batch < batch_size
      → (store_loop fault to_json batch_size parsed s).0 ≡ ok tt
      → (counted (store_loop fault to_json batch_size parsed s).1 ≡ counted s + length parsed)
        × (length (store_loop fault to_json batch_size parsed s).1.pending_batch < batch_size)
  unfolding store_loop
  store_loop-counted batch_size [] s pos below h = (omega arith, below)
  store_loop-counted batch_size (p ∷ parsed) s pos below h =
      let s' = (store_outcome fault to_json p s).1 in
      elim (Result-cases (store_outcome fault to_json p s).0) [
        | inr (e', e) ↦ absurd (let bad : err e' ≡ ok tt = rw (store_loop, e) at h in cc (bad))
        | inl (u, e) ↦
            let f = flush_full fault to_json batch_size s' in
            let (same, less) =
              store_loop-counted batch_size parsed f pos (flush_full-below batch_size s' pos)
                (rw (store_loop, e) at h) in
            rw (store_loop, e)
              (
                same
                    ∙ ground (arith, flush_full-counted batch_size s', store_outcome-counted p s e),
                less,
              )
      ]

  flush_rest-counted :
      (s : StoreState)
      → (counted (flush_rest fault to_json s).1 ≡ counted s)
        × ((flush_rest fault to_json s).1.pending_batch ≡ [])
  unfolding flush_rest
  flush_rest-counted s = rest s.pending_batch refl
    where
      rest :
          (bs : _)
          → bs ≡ s.pending_batch
          → (counted (flush_rest fault to_json s).1 ≡ counted s)
            × ((flush_rest fault to_json s).1.pending_batch ≡ [])
      rest [] h = rw (flush_rest, sym h) (refl, sym h)
      rest (b ∷ bs) h = rw (flush_rest, sym h) (refl, refl)

  -- For a positive batch size, a store stage that reports success, begun with fewer blocks
  -- pending than the batch size, has counted every outcome just once as ingested, skipped or
  -- failed, and no block is left pending.
  pub store_stage-counted :
      (batch_size : ℕ) (parsed : List ParsedOutcome) (s : StoreState)
      → 0 < batch_size
      → length s.pending_batch < batch_size
      → (store_stage fault to_json batch_size parsed s).0 ≡ ok tt
      → (counted (store_stage fault to_json batch_size parsed s).1 ≡ counted s + length parsed)
        × ((store_stage fault to_json batch_size parsed s).1.pending_batch ≡ [])
  unfolding store_stage
  store_stage-counted batch_size parsed s pos below h =
      elim (Result-cases (store_loop fault to_json batch_size parsed s).0) [
        | inr (e', e) ↦ absurd (let bad : err e' ≡ ok tt = rw (store_stage, e) at h in cc (bad))
        | inl (u, e) ↦
            let (same, less) = store_loop-counted batch_size parsed s pos below e in
            let (kept, empty) =
              flush_rest-counted (store_loop fault to_json batch_size parsed s).1 in
            rw (store_stage, e) (kept ∙ same, empty)
      ]
