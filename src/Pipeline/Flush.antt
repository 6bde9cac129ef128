-- ===== src/Pipeline/Flush.antt =====
-- What the flush of a batch leaves in the tables.
use tenso.Prelude.{ℕ, ◌≡◌, refl, sym, ap, ◌∙◌, String, Bool, none, List, [], ◌∷◌, map, inl, inr}
use tenso.Pipeline.{ParsedBlock, slot_row, write_all_steps, flush_parsed_batch}
use tenso.Storage.{ok, err, Tables, Conn, replace_slots_batch, write_schedule_steps}
use tenso.Storage.Runs.{bind-cases}
use tenso.Storage.Batch.{replaced_all, replace_slots_batch-ok}
use tenso.Storage.Steps.{scheduled, write_schedule_steps_lem}

-- The rows of the transactions with the steps of each block's schedule.
unfoldable pub all_scheduled : List ParsedBlock → Tables → Tables
all_scheduled [] t = t
all_scheduled (b ∷ blocks) t =
    all_scheduled blocks
      (record t { transactions = map (scheduled b.signatures b.schedule.steps) t.transactions })

module _ (fault : ℕ → Bool) (to_json : List String → String) where
  write_all_steps_lem :
      (blocks : List ParsedBlock) (c : Conn)
      → (write_all_steps fault to_json blocks c).0 ≡ ok tt
      → (write_all_steps fault to_json blocks c).1.tables ≡ all_scheduled blocks c.tables
  unfolding write_all_steps all_scheduled
  write_all_steps_lem [] c h = refl
  write_all_steps_lem (b ∷ blocks) c h =
      let m = write_schedule_steps fault b.signatures b.schedule in
      elim (bind-cases m (write_all_steps fault to_json blocks) c) [
        | inl (o, g) ↦
            let later = write_all_steps_lem blocks (m c).1 (ap (λ x. x.0) (sym g) ∙ h) in
            let here = write_schedule_steps_lem fault b.signatures b.schedule c o in
            rw g (later ∙ ap (all_scheduled blocks) here)
        | inr (e, o, g) ↦ absurd (let bad : err e ≡ ok tt = ap (λ x. x.0) (sym g) ∙ h in cc (bad))
      ]

  -- A flush that reports success on a connection with no open transaction has replaced the data
  -- of every slot of the batch, in order, and then given each transaction its step.
  pub flush_parsed_batch_lem :
      (blocks : List ParsedBlock) (c : Conn)
      → c.saved ≡ none
      → (flush_parsed_batch fault to_json blocks c).0 ≡ ok tt
      → (flush_parsed_batch fault to_json blocks c).1.tables
        ≡ all_scheduled blocks (replaced_all to_json (map slot_row blocks) c.tables)
  unfolding flush_parsed_batch
  flush_parsed_batch_lem blocks c idle h =
      let m = replace_slots_batch fault to_json (map slot_row blocks) in
      elim (bind-cases m (write_all_steps fault to_json blocks) c) [
        | inl (o, g) ↦
            let later = write_all_steps_lem blocks (m c).1 (ap (λ x. x.0) (sym g) ∙ h) in
            let here = (replace_slots_batch-ok fault to_json (map slot_row blocks) c idle o).1 in
            rw g (later ∙ ap (all_scheduled blocks) here)
        | inr (e, o, g) ↦ absurd (let bad : err e ≡ ok tt = ap (λ x. x.0) (sym g) ∙ h in cc (bad))
      ]
