-- ===== src/Pipeline/Tasks/Finish.antt =====
-- The three tasks all end, and the result of the store task does not depend on their turns.
use tenso.Prelude.{
  ℕ, suc, ◌+◌, ◌*◌, ◌≤◌, ◌<◌, ◌≡◌, refl, String, Bool, Option, none, some, List, [], ◌∷◌, ◌++◌, map,
  length, length-append, arith, inl, inr, ◌⊎◌,
}
use tenso.Fetch.{FetchOutcome}
use tenso.Pipeline.{ParsedOutcome, StoreState, store_outcome}
use tenso.Pipeline.Parsed.{parsed, parse_outcome_lem}
use tenso.Pipeline.Tasks.{
  ParseTask, Tasks, spawn, HasEnded, Turn, fetch_sends, fetch_warns, parse_receives, parse_ends,
  parse_sends, parse_bails, store_receives, store_fails, store_ends, Run, here, next,
}
use tenso.Storage.{Result}
use tenso.Storage.Runs.{Result-cases}

abbrev weight : ParseTask → ℕ
weight ParseTask.receiving = 1
weight (ParseTask.holding p) = 3
weight ParseTask.parse_ok = 0
weight ParseTask.parse_bailed = 0

abbrev one_while : {A : Type 0} → Option A → ℕ
one_while none = 1
one_while (some a) = 0

-- At least as many turns as are left.
abbrev left : Tasks → ℕ
left s =
    4 * length s.sending
    + 3 * length s.fetch_channel
    + weight s.parse_task
    + length s.parse_channel
    + one_while s.store_result

abbrev pub held : ParseTask → List ParsedOutcome
held ParseTask.receiving = []
held (ParseTask.holding p) = p ∷ []
held ParseTask.parse_ok = []
held ParseTask.parse_bailed = []

-- What the store task has yet to receive, unless the parse task bails.
abbrev pub pending : Tasks → List ParsedOutcome
pending s = s.parse_channel ++ (held s.parse_task ++ map parsed (s.fetch_channel ++ s.sending))

-- All three tasks have ended.
abbrev pub HasFinished : Tasks → Type 0
HasFinished s =
    (s.sending ≡ []) × HasEnded s.parse_task × ((r : Result (Unit {0})) × (s.store_result ≡ some r))

module _ (fault : ℕ → Bool) (to_json : List String → String) (batch_size : ℕ) where
  Turn-left : {s t : Tasks} → Turn fault to_json batch_size s t → left t < left s
  Turn-left {s} (fetch_sends o rest at running room) =
      rw at (omega (arith, length-append s.fetch_channel (o ∷ [])))
  Turn-left {s} (fetch_warns o rest at ended) = rw at (omega arith)
  Turn-left {s} (parse_receives o rest p empty at ran) = rw (empty, at) (omega arith)
  Turn-left {s} (parse_ends empty at done) = rw empty (omega arith)
  Turn-left {s} (parse_sends p at running room) =
      rw at (omega (arith, length-append s.parse_channel (p ∷ [])))
  Turn-left {s} (parse_bails p r at ended) = rw at (omega arith)
  Turn-left {s} (store_receives p rest at running went) = rw at (omega arith)
  Turn-left {s} (store_fails p rest e at running failed) = rw (at, running) (omega arith)
  Turn-left {s} (store_ends ended at running) = rw running (omega arith)

  pub turns : {s t : Tasks} → Run fault to_json batch_size s t → ℕ
  turns here = 0
  turns (next r turn) = suc (turns r)

  turns_lem : {s t : Tasks} (r : Run fault to_json batch_size s t) → turns r + left t ≤ left s
  unfolding turns
  turns_lem here = omega arith
  turns_lem (next r turn) = omega (arith, turns_lem r, Turn-left turn)

  -- A turn is possible, or all three tasks have ended.
  CanTurn : Tasks → Type 0
  CanTurn s = HasFinished s ⊎ ((t : Tasks) × Turn fault to_json batch_size s t)

  when_parse_ended :
      (s : Tasks) (os : List FetchOutcome) (r : Option (Result (Unit {0})))
      → s.sending ≡ os
      → s.store_result ≡ r
      → HasEnded s.parse_task
      → (r ≡ none → s.parse_channel ≡ [])
      → CanTurn s
  unfolding CanTurn
  when_parse_ended s (o ∷ rest) r e h p c = inr (_, fetch_warns o rest e p)
  when_parse_ended s [] none e h p c = inr (_, store_ends p (c refl) h)
  when_parse_ended s [] (some r) e h p c = inl (e, p, (r, h))

  when_receiving :
      (s : Tasks) (fs os : List FetchOutcome)
      → s.fetch_channel ≡ fs
      → s.sending ≡ os
      → s.parse_task ≡ ParseTask.receiving
      → CanTurn s
  unfolding CanTurn
  when_receiving s (o ∷ rest) os f e p =
      let (q, ran, same) = parse_outcome_lem o in inr (_, parse_receives o rest q p f ran)
  when_receiving s [] (o ∷ rest) f e p = inr (_, fetch_sends o rest e (inl p) (rw f (omega arith)))
  when_receiving s [] [] f e p = inr (_, parse_ends p f e)

  when_waiting :
      (s : Tasks) (p : ParseTask) (r : Option (Result (Unit {0})))
      → s.parse_task ≡ p
      → s.store_result ≡ r
      → (r ≡ none → s.parse_channel ≡ [])
      → CanTurn s
  unfolding CanTurn
  when_waiting s ParseTask.receiving r e h c =
      when_receiving s s.fetch_channel s.sending refl refl e
  when_waiting s (ParseTask.holding p) none e h c =
      inr (_, parse_sends p e h (rw (c refl) (omega arith)))
  when_waiting s (ParseTask.holding p) (some r) e h c = inr (_, parse_bails p r e h)
  when_waiting s ParseTask.parse_ok r e h c = when_parse_ended s s.sending r refl h (inl e) c
  when_waiting s ParseTask.parse_bailed r e h c = when_parse_ended s s.sending r refl h (inr e) c

  can_turn : (s : Tasks) → CanTurn s
  unfolding CanTurn
  can_turn s = by_result s.store_result s.parse_channel refl refl
    where
      by_result :
          (r : Option (Result (Unit {0}))) (ps : List ParsedOutcome)
          → s.store_result ≡ r
          → s.parse_channel ≡ ps
          → CanTurn s
      by_result (some r) ps h c = when_waiting s s.parse_task (some r) refl h (λ e. absurd (cc (e)))
      by_result none [] h c = when_waiting s s.parse_task none refl h (λ e. c)
      by_result none (p ∷ rest) h c =
          elim (Result-cases (store_outcome fault to_json p s.store).0) [
            | inl (u, went) ↦ inr (_, store_receives p rest c h went)
            | inr (e, failed) ↦ inr (_, store_fails p rest e c h failed)
          ]

  -- The tasks neither run on nor lock up, whatever errors the store task meets: begun with nothing
  -- sent, they have taken at most four turns for each outcome and two more, and either another
  -- turn is possible, or all three have ended and every outcome has been sent or given up.
  pub Tasks-progress :
      (outcomes : List FetchOutcome) (st : StoreState) {s : Tasks}
      (r : Run fault to_json batch_size (spawn outcomes st) s)
      → (turns r ≤ 4 * length outcomes + 2)
        × (HasFinished s ⊎ ((t : Tasks) × Turn fault to_json batch_size s t))
  unfolding CanTurn
  Tasks-progress outcomes st {s} r = let total = turns_lem r in (omega (arith, total), can_turn s)
