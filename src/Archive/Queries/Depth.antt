-- ===== src/Archive/Queries/Depth.antt =====
-- The depth that is reported for a stored slot is that of its schedule.
use mathlib.Core.List.{map-map}
use mathlib.Core.Path.{subst}
use tenso.Prelude.{
  ℕ, suc, ◌+◌, ◌≡◌, ◌≢◌, refl, sym, ap, ◌∙◌, String, Bool, true, false, Option, none, some, List,
  [], ◌∷◌, map, ite, if_pos, if_neg, length, length-map, arith, Fresh, Distinct, Option-cases,
  some_path, inl, inr, text_discrete, text_eq, max,
}
use tenso.Prelude.Bounds.{max_of}
use tenso.Prelude.Int.{ℤ, ℤ_discrete, eq_of_parts}
use tenso.Floats.{Floats}
use tenso.Types.{DecodedTransaction, DecodedBlock}
use tenso.Contention.{ScheduleResult, build_schedule, depth_of, max_step}
use tenso.Contention.Schedule.{depth-steps}
use tenso.Storage.{ok, Conn, Tables, TransactionDbRow, as_i64, transaction_db_row}
use tenso.Storage.Replace.{slot_rows, slot_rows-replace_rows, replaced}
use tenso.Storage.Batch.{All-map, replaced_all}
use tenso.Storage.Steps.{step_for, with_step, scheduled}
use tenso.Pipeline.{ParsedBlock, transaction_row, tx_locks, parse_block, flush_parsed_batch}
use tenso.Pipeline.Parse.{parse_block-reference_steps}
use tenso.Pipeline.Flush.{all_scheduled, flush_parsed_batch_lem}
use tenso.Archive.Pass.Found.{Reorders}
use tenso.Archive.{Database, is_between}
use tenso.Archive.Queries.{ContentionSummary, next_step, query_contention_summary}
use tenso.Archive.Queries.Summary.{greatest, query_contention_summary_lem}

is_between-same :
    (slot : ℕ) (x : ℤ) → is_between slot slot x ≡ ite (ℤ_discrete x (as_i64 slot)) true false
is_between-same slot x = elim (ℤ_discrete x (as_i64 slot)) [
  | yes p ↦ rw p (ground arith) ∙ sym (if_pos (ℤ_discrete x (as_i64 slot)) p true false)
  | no p ↦ ground (arith, eq_of_parts x (as_i64 slot), p)
]

greatest-slot_rows :
    (slot : ℕ) (rows : List TransactionDbRow)
    → greatest slot slot rows
      ≡ max_of (λ r. next_step r.step) (slot_rows (λ r. r.slot) (as_i64 slot) rows)
unfolding greatest slot_rows
greatest-slot_rows slot [] = refl
greatest-slot_rows slot (r ∷ rows) =
    let ih = greatest-slot_rows slot rows in
    let here = is_between-same slot r.slot in
    elim (ℤ_discrete r.slot (as_i64 slot)) [
      | yes p ↦
          let e = here ∙ if_pos (ℤ_discrete r.slot (as_i64 slot)) p true false in
          rw (if_pos (ℤ_discrete r.slot (as_i64 slot)) p, e) (omega (arith, ih))
      | no p ↦
          let e = here ∙ if_neg (ℤ_discrete r.slot (as_i64 slot)) p true false in
          rw (if_neg (ℤ_discrete r.slot (as_i64 slot)) p, e) (omega (arith, ih))
    ]

with_step-slot : (o : Option ℕ) (r : TransactionDbRow) → (with_step o r).slot ≡ r.slot
with_step-slot none r = refl
with_step-slot (some s) r = refl

slot_rows-scheduled :
    (signatures : List String) (steps : List ℕ) (s : ℤ) (rows : List TransactionDbRow)
    → slot_rows (λ r. r.slot) s (map (scheduled signatures steps) rows)
      ≡ map (scheduled signatures steps) (slot_rows (λ r. r.slot) s rows)
unfolding slot_rows
slot_rows-scheduled signatures steps s [] = refl
slot_rows-scheduled signatures steps s (r ∷ rows) =
    let ih = slot_rows-scheduled signatures steps s rows in
    let same = with_step-slot (step_for r.signature signatures steps) r in ground (arith, ih, same)

step_for-Fresh :
    (sig : String) (signatures : List String) (steps : List ℕ)
    → Fresh sig signatures
    → step_for sig signatures steps ≡ none
unfolding step_for
step_for-Fresh sig [] steps f = refl
step_for-Fresh sig (x ∷ signatures) [] f = refl
step_for-Fresh sig (x ∷ signatures) (s ∷ steps) (ne, f) =
    rw (step_for-Fresh sig signatures steps f)
      (if_neg (text_discrete sig x) (λ p. ne (sym p)) (some s) none)

step_for_here :
    (sig x : String) (s : ℕ) (signatures : List String) (steps : List ℕ)
    → sig ≡ x
    → Fresh x signatures
    → step_for sig (x ∷ signatures) (s ∷ steps) ≡ some s
unfolding step_for
step_for_here sig x s signatures steps p f =
    rw (step_for-Fresh sig signatures steps (subst (λ y. Fresh y signatures) (sym p) f))
      (if_pos (text_discrete sig x) p (some s) none)

step_for_ne :
    (sig x : String) (s : ℕ) (signatures : List String) (steps : List ℕ)
    → x ≢ sig
    → step_for sig (x ∷ signatures) (s ∷ steps) ≡ step_for sig signatures steps
unfolding step_for
step_for_ne sig x s signatures steps ne = elim (Option-cases (step_for sig signatures steps)) [
  | inl e ↦ rw e (if_neg (text_discrete sig x) (λ p. ne (sym p)) (some s) none)
  | inr (l, e) ↦ rw e refl
]

depth_of-max_of : (steps : List ℕ) → depth_of steps ≡ max_of suc steps
unfolding depth_of max_step
depth_of-max_of [] = refl
depth_of-max_of (s ∷ steps) =
    let ih = depth_of-max_of steps in
    elim (Option-cases (max_step steps)) [
      | inl e ↦
          let ih' : 0 ≡ max_of suc steps = rw (depth_of, e) at ih in
          rw (depth_of, max_step, e) (omega (arith, ih'))
      | inr (m, e) ↦
          let ih' : m + 1 ≡ max_of suc steps = rw (depth_of, e) at ih in
          rw (depth_of, max_step, e) (omega (arith, ih'))
    ]

module _ (row : DecodedTransaction → TransactionDbRow)
    (signed : (t : DecodedTransaction) → (row t).signature ≡ t.signature) where
  map-scheduled_ne :
      (x : String) (s : ℕ) (signatures : List String) (steps : List ℕ)
      (ts : List DecodedTransaction)
      → Fresh x (map (λ t. t.signature) ts)
      → map (scheduled (x ∷ signatures) (s ∷ steps)) (map row ts)
        ≡ map (scheduled signatures steps) (map row ts)
  map-scheduled_ne x s signatures steps [] f = refl
  map-scheduled_ne x s signatures steps (t ∷ ts) (ne, f) =
      let same =
        step_for_ne (row t).signature x s signatures steps (λ p. ne (sym (p ∙ signed t))) in
      λ i. with_step (same i) (row t) ∷ map-scheduled_ne x s signatures steps ts f i

  max_of-scheduled :
      (ts : List DecodedTransaction) (steps : List ℕ)
      → Distinct (map (λ t. t.signature) ts)
      → length steps ≡ length ts
      → max_of
          (λ r. next_step r.step)
          (map (scheduled (map (λ t. t.signature) ts) steps) (map row ts))
        ≡ max_of suc steps
  unfolding step_for
  max_of-scheduled [] [] d l = refl
  max_of-scheduled [] (s ∷ steps) d l = absurd (omega (arith, l))
  max_of-scheduled (t ∷ ts) [] d l = absurd (omega (arith, l))
  max_of-scheduled (t ∷ ts) (s ∷ steps) (f, d) l =
      let signatures = map (λ t. t.signature) ts in
      let head = step_for_here (row t).signature t.signature s signatures steps (signed t) f in
      let tail =
        ap (max_of (λ r. next_step r.step)) (map-scheduled_ne t.signature s signatures steps ts f)
        ∙ max_of-scheduled ts steps d (omega (arith, l)) in
      (λ i. max (next_step (with_step (head i) (row t)).step) (tail i)) ∙ omega arith

-- What the parse stage makes of the transactions.
parse_block-fields :
    (block : DecodedBlock) {p : ParsedBlock}
    → parse_block block ≡ some p
    → (p.transactions ≡ map transaction_row block.transactions)
      × (p.signatures ≡ map (λ t. t.signature) block.transactions)
      × (p.schedule.depth ≡ depth_of p.schedule.steps)
      × (length p.schedule.steps ≡ length block.transactions)
unfolding parse_block
parse_block-fields block {p} ran =
    let (p', ran', steps, len) = parse_block-reference_steps block in
    let same : p' ≡ p = some_path (sym ran' ∙ ran) in
    elim (Option-cases (build_schedule (map tx_locks block.transactions))) [
      | inl e ↦ absurd (let gone : none ≡ some p = rw (e, parse_block) at ran in cc (gone))
      | inr (r, e) ↦
          let made = some_path (rw (e, parse_block) at ran) in
          let signatures = sym (ap (λ (p : ParsedBlock). p.signatures) made) in
          (
            sym (ap (λ (p : ParsedBlock). p.transactions) made),
            signatures,
            subst (λ (x : ScheduleResult). x.depth ≡ depth_of x.steps)
                (ap (λ (p : ParsedBlock). p.schedule) made)
                (depth-steps (map tx_locks block.transactions) e),
            sym (ap (λ (p : ParsedBlock). length p.schedule.steps) same)
                ∙ len
                ∙ ap (λ (p : ParsedBlock). length p.signatures) same
                ∙ ap length signatures
                ∙ length-map (λ t. t.signature) block.transactions,
          )
    ]

module _ (f : Floats) (fault : ℕ → Bool) (to_json : List String → String)
    (group_order : List (String × ℕ) → List (String × ℕ)) where
  stored_rows :
      (block : DecodedBlock) {p : ParsedBlock} (c : Conn)
      → parse_block block ≡ some p
      → c.saved ≡ none
      → (flush_parsed_batch fault to_json (p ∷ []) c).0 ≡ ok tt
      → slot_rows
          (λ r. r.slot)
          (as_i64 p.slot)
          (flush_parsed_batch fault to_json (p ∷ []) c).1.tables.transactions
        ≡ map
            (scheduled p.signatures p.schedule.steps)
            (map (transaction_db_row to_json (as_i64 p.slot) p.block_time) p.transactions)
  unfolding replaced all_scheduled replaced_all
  stored_rows block {p} c ran idle done =
      ap (λ (t : Tables). slot_rows (λ r. r.slot) (as_i64 p.slot) t.transactions)
        (flush_parsed_batch_lem fault to_json (p ∷ []) c idle done)
      ∙ slot_rows-scheduled p.signatures p.schedule.steps (as_i64 p.slot) _
      ∙ ap (map (scheduled p.signatures p.schedule.steps)) (
          slot_rows-replace_rows (λ r. r.slot) (as_i64 p.slot) _ _
            (All-map _ _ p.transactions (λ r. refl)))

  -- Where the signatures of a block are distinct, and the parsed block is flushed with success, no
  -- transaction being open, the depth that a successful `query_contention_summary` then gives for
  -- its slot alone is the depth of its schedule. The order of the groups may be any.
  pub query_contention_summary-flush :
      (block : DecodedBlock) {p : ParsedBlock} (d : Database f) (s : ContentionSummary)
      → parse_block block ≡ some p
      → Distinct (map (λ t. t.signature) block.transactions)
      → d.conn.saved ≡ none
      → (flush_parsed_batch fault to_json (p ∷ []) d.conn).0 ≡ ok tt
      → Reorders group_order
      → (query_contention_summary f fault group_order p.slot p.slot
          (record d { conn = (flush_parsed_batch fault to_json (p ∷ []) d.conn).1 })).0
        ≡ ok s
      → s.depth ≡ p.schedule.depth
  query_contention_summary-flush block {p} d s ran distinct idle done reorders asked =
      let (rows, signatures, depth, len) = parse_block-fields block ran in
      let after = record d { conn = (flush_parsed_batch fault to_json (p ∷ []) d.conn).1 } in
      let (told, _, _) =
        query_contention_summary_lem f fault group_order p.slot p.slot after s reorders asked in
      told
      ∙ greatest-slot_rows p.slot after.conn.tables.transactions
      ∙ ap (max_of (λ r. next_step r.step)) (
          stored_rows block d.conn ran idle done
          ∙ ap
              (λ x.
                map (scheduled x p.schedule.steps)
                  (map (transaction_db_row to_json (as_i64 p.slot) p.block_time) p.transactions))
              signatures
          ∙ ap
              (λ x.
                map (scheduled (map (λ t. t.signature) block.transactions) p.schedule.steps)
                  (map (transaction_db_row to_json (as_i64 p.slot) p.block_time) x))
              rows
          ∙ ap (map (scheduled (map (λ t. t.signature) block.transactions) p.schedule.steps))
              (map-map _ _ block.transactions))
      ∙ max_of-scheduled
          (λ t. transaction_db_row to_json (as_i64 p.slot) p.block_time (transaction_row t))
          (λ t. refl) block.transactions p.schedule.steps distinct len
      ∙ sym (depth_of-max_of p.schedule.steps)
      ∙ sym depth
