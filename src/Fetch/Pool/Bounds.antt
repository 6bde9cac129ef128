-- ===== src/Fetch/Pool/Bounds.antt =====
-- No more requests are in flight than `max_concurrency`, and slots wait only while all are used.
use mathlib.Core.Path.{subst}
use tenso.Fetch.{FetchOutcome, Acquire}
use tenso.Prelude.{
  ℕ, zero, suc, ◌+◌, ◌≤◌, ◌≡◌, refl, ap, ◌∙◌, List, [], ◌∷◌, ◌++◌, length, length-append, arith,
  inl, inr, ◌⊎◌,
}
use tenso.Types.{DecodedBlock}
use tenso.Rpc.{RpcError}
use tenso.Retry.{Answer}
use tenso.Fetch.Pool.{Pool, dispatch, prime, start, slot_range, Step, completes, Reach, here, next}

-- The pool is as full as the slots allow, and no fuller than `max_concurrency`.
pub record Full (max_concurrency : ℕ) (p : Pool) : Type 0 where
  pub bounded : length p.in_flight ≤ max_concurrency
  pub busy : (p.slots ≡ []) ⊎ (length p.in_flight ≡ max_concurrency)

abbrev pool : List ℕ → List ℕ → List FetchOutcome → Pool
pool slots in_flight outcomes = record { slots = slots; in_flight = in_flight; outcomes = outcomes }

prime-empty :
    (n : ℕ) (fl : List ℕ) (os : List FetchOutcome) → prime n (pool [] fl os) ≡ pool [] fl os
unfolding prime dispatch
prime-empty zero fl os = refl
prime-empty (suc n) fl os = prime-empty n fl os

prime-Full :
    (n : ℕ) (slots fl : List ℕ) (os : List FetchOutcome)
    → Full (length fl + n) (prime n (pool slots fl os))
unfolding prime dispatch
prime-Full zero slots fl os = record { bounded = omega arith; busy = inr (omega arith) }
prime-Full (suc n) [] fl os =
    rw (prime-empty n fl os) (record { bounded = omega arith; busy = inl refl })
prime-Full (suc n) (slot ∷ slots) fl os =
    let one : length (fl ++ slot ∷ []) + n ≡ length fl + suc n =
      omega (arith, length-append fl (slot ∷ [])) in
    subst (λ m. Full m (prime n (pool slots (fl ++ slot ∷ []) os))) one
      (prime-Full n slots (fl ++ slot ∷ []) os)

start-Full :
    (start_slot count max_concurrency : ℕ)
    → Full max_concurrency (start start_slot count max_concurrency)
unfolding start
start-Full start_slot count max_concurrency =
    subst (λ m. Full m (start start_slot count max_concurrency)) (omega arith)
      (prime-Full max_concurrency (slot_range start_slot count) [] [])

dispatch-Full :
    (m : ℕ) (slots fl : List ℕ) (os : List FetchOutcome)
    → suc (length fl) ≤ m
    → ((slots ≡ []) ⊎ (suc (length fl) ≡ m))
    → Full m (dispatch (pool slots fl os))
unfolding dispatch
dispatch-Full m [] fl os le busy = record { bounded = omega arith; busy = inl refl }
dispatch-Full m (slot ∷ slots) fl os le busy =
    let one = length-append fl (slot ∷ []) in
    record {
      bounded = omega arith;
      busy = elim busy [ inl e ↦ absurd (cc (e)) | inr e ↦ inr (omega arith) ];
    }

module _ (grants : ℕ → Acquire) (server : ℕ → ℕ → Answer RpcError DecodedBlock) where
  Step-Full :
      (max_concurrency : ℕ) {p q : Pool}
      → Step grants server p q
      → Full max_concurrency p
      → Full max_concurrency q
  Step-Full max_concurrency {p} (completes before after slot o at ran) f =
      let total : length p.in_flight ≡ length before + suc (length after) =
        ap length at ∙ length-append before (slot ∷ after) in
      let left = length-append before after in
      dispatch-Full max_concurrency p.slots (before ++ after) (p.outcomes ++ o ∷ [])
        (omega (arith, f.bounded)) (elim f.busy [ inl e ↦ inl e | inr e ↦ inr (omega arith) ])

  -- Whatever the order in which requests complete, at most `max_concurrency` are in flight, and
  -- slots wait only while that many are.
  pub Reach-Full :
      (start_slot count max_concurrency : ℕ) {p : Pool}
      → Reach grants server (start start_slot count max_concurrency) p
      → Full max_concurrency p
  Reach-Full start_slot count max_concurrency here = start-Full start_slot count max_concurrency
  Reach-Full start_slot count max_concurrency (next r s) =
      Step-Full max_concurrency s (Reach-Full start_slot count max_concurrency r)
