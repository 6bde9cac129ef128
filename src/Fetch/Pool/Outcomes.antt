-- ===== src/Fetch/Pool/Outcomes.antt =====
-- Every slot of the range ends in just one outcome, and the pool neither stalls nor runs on.
use mathlib.Core.List.{append-nil, append_assoc, Perm, perm_middle, map-append}
use mathlib.Core.List.Perm
use mathlib.Core.Path.{subst}
use tenso.Prelude.{
  ℕ, zero, suc, ◌+◌, ◌-◌, ◌%◌, ◌^◌, none, Option-cases, ◌<◌, ◌≡◌, refl, ap, ◌∙◌, some, List, [],
  ◌∷◌, ◌++◌, map, length, length-append, arith, inl, inr,
}
use tenso.Types.{DecodedBlock}
use tenso.Rpc.{RpcError}
use tenso.Retry.{Answer, ok}
use tenso.Fetch.{FetchOutcome, Acquire, fetch_one, fetch_outcome_slot, fetch_one_lem}
use tenso.Fetch.Pool.{
  Pool, dispatch, prime, start, slots_from, slot_range, Step, completes, Reach, here, next,
}
use tenso.Fetch.Pool.Bounds.{Reach-Full}

-- The slots that have no outcome yet.
abbrev pub waiting : Pool → List ℕ
waiting p = p.in_flight ++ p.slots

-- All slots that the pool knows of.
abbrev pub all_slots : Pool → List ℕ
all_slots p = map fetch_outcome_slot p.outcomes ++ waiting p

abbrev pool : List ℕ → List ℕ → List FetchOutcome → Pool
pool slots in_flight outcomes = record { slots = slots; in_flight = in_flight; outcomes = outcomes }

waiting-pool :
    (slots fl : List ℕ) (os : List FetchOutcome)
    → waiting (dispatch (pool slots fl os)) ≡ fl ++ slots
unfolding dispatch
waiting-pool [] fl os = refl
waiting-pool (slot ∷ rest) fl os = append_assoc fl (slot ∷ []) rest

outcomes-pool :
    (slots fl : List ℕ) (os : List FetchOutcome) → (dispatch (pool slots fl os)).outcomes ≡ os
unfolding dispatch
outcomes-pool [] fl os = refl
outcomes-pool (slot ∷ rest) fl os = refl

waiting-dispatch : (p : Pool) → waiting (dispatch p) ≡ waiting p
waiting-dispatch p = waiting-pool p.slots p.in_flight p.outcomes

outcomes-dispatch : (p : Pool) → (dispatch p).outcomes ≡ p.outcomes
outcomes-dispatch p = outcomes-pool p.slots p.in_flight p.outcomes

all_slots-dispatch : (p : Pool) → all_slots (dispatch p) ≡ all_slots p
all_slots-dispatch p = rw (outcomes-dispatch p, waiting-dispatch p) refl

all_slots-prime : (n : ℕ) (p : Pool) → all_slots (prime n p) ≡ all_slots p
unfolding prime
all_slots-prime zero p = refl
all_slots-prime (suc n) p = all_slots-prime n (dispatch p) ∙ all_slots-dispatch p

outcomes-prime : (n : ℕ) (p : Pool) → (prime n p).outcomes ≡ p.outcomes
unfolding prime
outcomes-prime zero p = refl
outcomes-prime (suc n) p = outcomes-prime n (dispatch p) ∙ outcomes-dispatch p

waiting-prime : (n : ℕ) (p : Pool) → waiting (prime n p) ≡ waiting p
unfolding prime
waiting-prime zero p = refl
waiting-prime (suc n) p = waiting-prime n (dispatch p) ∙ waiting-dispatch p

pub no_outcome-start :
    (start_slot count max_concurrency : ℕ) → (start start_slot count max_concurrency).outcomes ≡ []
unfolding start
no_outcome-start start_slot count max_concurrency =
    outcomes-prime max_concurrency (pool (slot_range start_slot count) [] [])

length-slots_from : (start_slot count : ℕ) → length (slots_from start_slot count) ≡ count
unfolding slots_from
length-slots_from start_slot zero = refl
length-slots_from start_slot (suc count) = ap suc (length-slots_from (suc start_slot) count)

-- A range that ends within u64.
pub slot_range_fits :
    (start_slot count : ℕ)
    → start_slot + count < 2 ^ 64
    → slot_range start_slot count ≡ slots_from start_slot count
unfolding slot_range
slot_range_fits start_slot count fits =
    let number : (start_slot + count) % 2 ^ 64 - start_slot ≡ count = omega (arith, fits) in
    ap (slots_from start_slot) number

pub length-slot_range :
    (start_slot count : ℕ)
    → start_slot + count < 2 ^ 64
    → length (slot_range start_slot count) ≡ count
length-slot_range start_slot count fits =
    ap length (slot_range_fits start_slot count fits) ∙ length-slots_from start_slot count

-- Each block that is answered has the slot that was asked for.
abbrev pub AnswersSlots : (ℕ → ℕ → Answer RpcError DecodedBlock) → Type 0
AnswersSlots server =
    (slot n : ℕ) (block : DecodedBlock) → server slot n ≡ ok block → block.slot ≡ slot

module _ (grants : ℕ → Acquire) (server : ℕ → ℕ → Answer RpcError DecodedBlock)
    (right : AnswersSlots server) where
  outcome_slot-fetch_one :
      (slot : ℕ) (o : FetchOutcome)
      → fetch_one (grants slot) (server slot) slot ≡ some o
      → fetch_outcome_slot o ≡ slot
  unfolding fetch_one
  outcome_slot-fetch_one slot o ran = elim (Option-cases (grants slot)) [
    | inl e ↦ absurd (let bad : none ≡ some o = rw (e, fetch_one) at ran in cc (bad))
    | inr (u, e) ↦
        let (o', ran', same) = fetch_one_lem (server slot) slot (right slot) in
        let ran'' : fetch_one (some tt) (server slot) slot ≡ some o = rw e at ran in
        let one : o ≡ o' = cc (ran'', ran') in ap fetch_outcome_slot one ∙ same
  ]

  -- A slot that moves from the requests to the outcomes.
  moved :
      (done before after slots : List ℕ) (slot : ℕ)
      → Perm
          ((done ++ slot ∷ []) ++ ((before ++ after) ++ slots))
          (done ++ ((before ++ slot ∷ after) ++ slots))
  moved done before after slots slot =
      rw
        (
          append_assoc done (slot ∷ []) ((before ++ after) ++ slots),
          append_assoc before after slots,
          append_assoc before (slot ∷ after) slots,
        )
        (Perm.append_left done (Perm.symm (perm_middle before (after ++ slots))))

  Step-Perm : {p q : Pool} → Step grants server p q → Perm (all_slots q) (all_slots p)
  Step-Perm {p} (completes before after slot o at ran) =
      rw
        (
          all_slots-dispatch
              (record p { in_flight = before ++ after; outcomes = p.outcomes ++ o ∷ [] }),
          map-append fetch_outcome_slot p.outcomes (o ∷ []),
          at,
          outcome_slot-fetch_one slot o ran,
        )
        (moved (map fetch_outcome_slot p.outcomes) before after p.slots slot)

  all_slots-Reach :
      (start_slot count max_concurrency : ℕ) {p : Pool}
      → Reach grants server (start start_slot count max_concurrency) p
      → Perm (all_slots p) (slot_range start_slot count)
  unfolding start
  all_slots-Reach start_slot count max_concurrency here =
      rw (all_slots-prime max_concurrency (pool (slot_range start_slot count) [] []))
        (Perm.refl (slot_range start_slot count))
  all_slots-Reach start_slot count max_concurrency (next r s) =
      Perm.trans (Step-Perm s) (all_slots-Reach start_slot count max_concurrency r)

  idle-waiting :
      (start_slot count max_concurrency : ℕ) {p : Pool}
      → 0 < max_concurrency
      → Reach grants server (start start_slot count max_concurrency) p
      → p.in_flight ≡ []
      → waiting p ≡ []
  idle-waiting start_slot count max_concurrency {p} pos r idle =
      let full = Reach-Full grants server start_slot count max_concurrency r in
      let none_left : p.slots ≡ [] = elim full.busy [
        | inl e ↦ e
        | inr e ↦
            absurd
              (let empty : length p.in_flight ≡ 0 = ap length idle in omega (arith, empty, e, pos))
      ] in
      ap (λ l. l ++ p.slots) idle ∙ none_left

  -- For a positive `max_concurrency`, where each block that is answered has the slot that was asked
  -- for, in whatever order the requests complete, once none is in
  -- flight the outcomes are for just the slots of the range, each once.
  pub Reach-finished :
      (start_slot count max_concurrency : ℕ) {p : Pool}
      → 0 < max_concurrency
      → Reach grants server (start start_slot count max_concurrency) p
      → p.in_flight ≡ []
      → Perm (map fetch_outcome_slot p.outcomes) (slot_range start_slot count)
  Reach-finished start_slot count max_concurrency {p} pos r idle =
      let drained : all_slots p ≡ map fetch_outcome_slot p.outcomes =
        ap (λ l. map fetch_outcome_slot p.outcomes ++ l)
          (idle-waiting start_slot count max_concurrency pos r idle)
        ∙ append-nil (map fetch_outcome_slot p.outcomes) in
      subst (λ l. Perm l (slot_range start_slot count)) drained
        (all_slots-Reach start_slot count max_concurrency r)

  -- The number of rounds.
  pub rounds : {p q : Pool} → Reach grants server p q → ℕ
  rounds here = 0
  rounds (next r s) = suc (rounds r)

  length-Step :
      {p q : Pool}
      → Step grants server p q
      → (length q.outcomes ≡ suc (length p.outcomes))
        × (suc (length (waiting q)) ≡ length (waiting p))
  length-Step {p} (completes before after slot o at ran) =
      let q = record p { in_flight = before ++ after; outcomes = p.outcomes ++ o ∷ [] } in
      let gone = length-append before after in
      let was = ap length at ∙ length-append before (slot ∷ after) in
      let left = length-append (before ++ after) p.slots in
      let had = length-append p.in_flight p.slots in
      (
        ap length (outcomes-dispatch q) ∙ length-append p.outcomes (o ∷ []) ∙ omega arith,
        ap (λ l. suc (length l)) (waiting-dispatch q) ∙ omega arith,
      )

  rounds_lem :
      (start_slot count max_concurrency : ℕ) {p : Pool}
      (r : Reach grants server (start start_slot count max_concurrency) p)
      → (rounds r ≡ length p.outcomes)
        × (length p.outcomes + length (waiting p) ≡ length (slot_range start_slot count))
  unfolding rounds start
  rounds_lem start_slot count max_concurrency here =
      let idle = pool (slot_range start_slot count) [] [] in
      let none_done = ap length (outcomes-prime max_concurrency idle) in
      let all = ap length (waiting-prime max_concurrency idle) in (omega arith, omega arith)
  rounds_lem start_slot count max_concurrency (next r s) =
      let (same, total) = rounds_lem start_slot count max_concurrency r in
      let (more, less) = length-Step s in (omega arith, omega arith)

  pub finished_length :
      (start_slot count max_concurrency : ℕ) {p : Pool}
      → start_slot + count < 2 ^ 64
      → 0 < max_concurrency
      → Reach grants server (start start_slot count max_concurrency) p
      → p.in_flight ≡ []
      → length p.outcomes ≡ count
  finished_length start_slot count max_concurrency fits pos r idle =
      let (same, total) = rounds_lem start_slot count max_concurrency r in
      let none_left = ap length (idle-waiting start_slot count max_concurrency pos r idle) in
      omega (arith, total, none_left, length-slot_range start_slot count fits)
