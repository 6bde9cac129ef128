-- ===== src/Storage/Steps.antt =====
-- What `write_schedule_steps` leaves in the table of transactions.
use tenso.Prelude.{
  ℕ, ◌≡◌, refl, ◌∙◌, sym, ap, String, Bool, Option, none, some, List, [], ◌∷◌, map, ite,
  Option-cases, arith, inl, inr, text_discrete,
}
use tenso.Contention.{ScheduleResult}
use tenso.Storage.{
  ok, err, Conn, TransactionDbRow, set_step, update_step, write_steps, write_schedule_steps,
  execute,
}
use tenso.Storage.Runs.{Runs-execute, bind-cases}

-- The step at the last place of a signature, where both lists reach.
unfoldable pub step_for : String → List String → List ℕ → Option ℕ
step_for sig [] steps = none
step_for sig (s ∷ signatures) [] = none
step_for sig (s ∷ signatures) (step ∷ steps) = elim (step_for sig signatures steps) [
  | some later ↦ some later
  | none ↦ ite (text_discrete sig s) (some step) none
]

-- A row with its step, if its signature has one.
abbrev pub with_step : Option ℕ → TransactionDbRow → TransactionDbRow
with_step none r = r
with_step (some step) r = record r { step = some step }

abbrev pub scheduled : List String → List ℕ → TransactionDbRow → TransactionDbRow
scheduled signatures steps r = with_step (step_for r.signature signatures steps) r

-- One update, and then the later ones.
map-set_step :
    (sig : String) (step : ℕ) (signatures : List String) (steps : List ℕ)
    (rows : List TransactionDbRow)
    → map (scheduled signatures steps) (set_step step sig rows)
      ≡ map (scheduled (sig ∷ signatures) (step ∷ steps)) rows
unfolding set_step step_for
map-set_step sig step signatures steps [] = refl
map-set_step sig step signatures steps (r ∷ rows) =
    let later = map-set_step sig step signatures steps rows in
    elim (text_discrete r.signature sig) [
      | yes p ↦ elim (Option-cases (step_for r.signature signatures steps)) [
        | inl n ↦ ground (arith, later, p, n)
        | inr (l, e) ↦ ground (arith, later, p, e)
      ]
      | no p ↦ elim (Option-cases (step_for r.signature signatures steps)) [
        | inl n ↦ ground (arith, later, p, n)
        | inr (l, e) ↦ ground (arith, later, p, e)
      ]
    ]

map-none : (rows : List TransactionDbRow) → map (λ r. r) rows ≡ rows
map-none [] = refl
map-none (r ∷ rows) = ap (◌∷◌ r) (map-none rows)

module _ (fault : ℕ → Bool) where
  write_steps-ok :
      (signatures : List String) (steps : List ℕ) (c : Conn)
      → (write_steps fault signatures steps c).0 ≡ ok tt
      → (write_steps fault signatures steps c).1.tables
        ≡ record c.tables { transactions = map (scheduled signatures steps) c.tables.transactions }
  unfolding write_steps step_for
  write_steps-ok [] steps c h = rw (map-none c.tables.transactions) refl
  write_steps-ok (sig ∷ signatures) [] c h = rw (map-none c.tables.transactions) refl
  write_steps-ok (sig ∷ signatures) (step ∷ steps) c h =
      let m = execute fault (update_step step sig) in
      elim (bind-cases m (write_steps fault signatures steps) c) [
        | inl (o, g) ↦
            let later = write_steps-ok signatures steps (m c).1 (ap (λ x. x.0) (sym g) ∙ h) in
            let here = (Runs-execute fault (update_step step sig)).applies c o in
            let same : (m c).1.tables
                ≡ record c.tables { transactions = set_step step sig c.tables.transactions } =
              cc (here) in
            let updated = map-set_step sig step signatures steps c.tables.transactions in
            rw (g) (later ∙ rw (same, updated) refl)
        | inr (e, o, g) ↦ absurd (let bad : err e ≡ ok tt = ap (λ x. x.0) (sym g) ∙ h in cc (bad))
      ]

  -- Where `write_schedule_steps` reports success, every row of `transactions` whose signature is
  -- in the list has the step at the last place of it, every other row is as before, and no other
  -- table has changed.
  pub write_schedule_steps_lem :
      (signatures : List String) (schedule : ScheduleResult) (c : Conn)
      → (write_schedule_steps fault signatures schedule c).0 ≡ ok tt
      → (write_schedule_steps fault signatures schedule c).1.tables ≡ record c.tables {
        transactions = map (scheduled signatures schedule.steps) c.tables.transactions;
      }
  unfolding write_schedule_steps
  write_schedule_steps_lem signatures schedule c h = write_steps-ok signatures schedule.steps c h
