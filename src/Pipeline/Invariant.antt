-- ===== src/Pipeline/Invariant.antt =====
-- The store stage of crates/cli/src/main.rs and its flushes keep the tables consistent.
use tenso.Prelude.{
  ℕ, ◌≡◌, refl, sym, String, Bool, none, some, List, [], ◌∷◌, map, length, leb, Bool-cases, inl,
  inr,
}
use tenso.Pipeline.{
  ParsedBlock, ParsedOutcome, StoreState, slot_row, write_all_steps, flush_parsed_batch,
  store_outcome, flush_full, store_loop, flush_rest, store_stage,
}
use tenso.Storage.{upsert_ingestion_status}
use tenso.Storage.Runs.{Result-cases}
use tenso.Storage.Invariant.Methods.{
  ConsistentConn, Preserves, Preserves-done, Preserves-bind, Preserves-upsert_ingestion_status,
  Preserves-replace_slots_batch, Preserves-write_schedule_steps,
}

module _ (fault : ℕ → Bool) (to_json : List String → String) where
  Preserves-write_all_steps :
      (blocks : List ParsedBlock) → Preserves (write_all_steps fault to_json blocks)
  unfolding write_all_steps
  Preserves-write_all_steps [] = Preserves-done
  Preserves-write_all_steps (b ∷ blocks) =
      Preserves-bind _ _ (Preserves-write_schedule_steps fault b.signatures b.schedule)
        (Preserves-write_all_steps blocks)

  pub Preserves-flush_parsed_batch :
      (blocks : List ParsedBlock) → Preserves (flush_parsed_batch fault to_json blocks)
  unfolding flush_parsed_batch
  Preserves-flush_parsed_batch blocks =
      Preserves-bind _ _ (Preserves-replace_slots_batch fault to_json (map slot_row blocks))
        (Preserves-write_all_steps blocks)

  store_outcome-ConsistentConn :
      (p : ParsedOutcome) (s : StoreState)
      → ConsistentConn s.conn
      → ConsistentConn (store_outcome fault to_json p s).1.conn
  unfolding store_outcome
  store_outcome-ConsistentConn (ParsedOutcome.ingested block) s w =
      let k = (Preserves-upsert_ingestion_status fault block.slot "ingested" none).keeps s.conn w in
      elim (Result-cases (upsert_ingestion_status fault block.slot "ingested" none s.conn).0) [
        | inl (u, e) ↦ rw (store_outcome, e) k
        | inr (x, e) ↦ rw (store_outcome, e) k
      ]
  store_outcome-ConsistentConn (ParsedOutcome.skipped slot) s w =
      let k = (Preserves-upsert_ingestion_status fault slot "skipped" none).keeps s.conn w in
      elim (Result-cases (upsert_ingestion_status fault slot "skipped" none s.conn).0) [
        | inl (u, e) ↦ rw (store_outcome, e) k
        | inr (x, e) ↦ rw (store_outcome, e) k
      ]
  store_outcome-ConsistentConn (ParsedOutcome.failed slot error) s w =
      let k = (Preserves-upsert_ingestion_status fault slot "failed" (some error)).keeps s.conn w in
      elim (Result-cases (upsert_ingestion_status fault slot "failed" (some error) s.conn).0) [
        | inl (u, e) ↦ rw (store_outcome, e) k
        | inr (x, e) ↦ rw (store_outcome, e) k
      ]

  flush_full-ConsistentConn :
      (batch_size : ℕ) (s : StoreState)
      → ConsistentConn s.conn
      → ConsistentConn (flush_full fault to_json batch_size s).conn
  unfolding flush_full
  flush_full-ConsistentConn batch_size s w =
      elim (Bool-cases (leb batch_size (length s.pending_batch))) [
        | inl t ↦ rw t ((Preserves-flush_parsed_batch s.pending_batch).keeps s.conn w)
        | inr t ↦ rw t w
      ]

  store_loop-ConsistentConn :
      (batch_size : ℕ) (parsed : List ParsedOutcome) (s : StoreState)
      → ConsistentConn s.conn
      → ConsistentConn (store_loop fault to_json batch_size parsed s).1.conn
  unfolding store_loop
  store_loop-ConsistentConn batch_size [] s w = w
  store_loop-ConsistentConn batch_size (p ∷ parsed) s w =
      let s' = (store_outcome fault to_json p s).1 in
      let k = store_outcome-ConsistentConn p s w in
      elim (Result-cases (store_outcome fault to_json p s).0) [
        | inr (x, e) ↦ rw (store_loop, e) k
        | inl (u, e) ↦
            rw (store_loop, e)
              (store_loop-ConsistentConn batch_size parsed (flush_full fault to_json batch_size s')
                (flush_full-ConsistentConn batch_size s' k))
      ]

  flush_rest-ConsistentConn :
      (s : StoreState) → ConsistentConn s.conn → ConsistentConn (flush_rest fault to_json s).1.conn
  unfolding flush_rest
  flush_rest-ConsistentConn s w = rest s.pending_batch refl
    where
      rest : (bs : _) → bs ≡ s.pending_batch → ConsistentConn (flush_rest fault to_json s).1.conn
      rest [] h = rw (flush_rest, sym h) w
      rest (b ∷ bs) h =
          rw (flush_rest, sym h) ((Preserves-flush_parsed_batch s.pending_batch).keeps s.conn w)

  -- However the store stage ends, and wherever the engine fails in it: begun on consistent
  -- tables, it leaves consistent tables, and so with the tables that a rollback would restore.
  -- No primary key stands twice in a table, every amount is below 2^63, and every number of
  -- decimals below 128.
  pub store_stage-ConsistentConn :
      (batch_size : ℕ) (parsed : List ParsedOutcome) (s : StoreState)
      → ConsistentConn s.conn
      → ConsistentConn (store_stage fault to_json batch_size parsed s).1.conn
  unfolding store_stage
  store_stage-ConsistentConn batch_size parsed s w =
      let k = store_loop-ConsistentConn batch_size parsed s w in
      elim (Result-cases (store_loop fault to_json batch_size parsed s).0) [
        | inr (x, e) ↦ rw (store_stage, e) k
        | inl (u, e) ↦ rw (store_stage, e) (flush_rest-ConsistentConn _ k)
      ]
