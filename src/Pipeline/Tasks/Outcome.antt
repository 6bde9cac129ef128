-- ===== src/Pipeline/Tasks/Outcome.antt =====
-- What the store task returns, and the tables that it leaves, do not depend on how the tasks take
-- turns.
use mathlib.Core.List.{append_assoc}
use tenso.Prelude.{
  ℕ, ◌≡◌, refl, sym, ap, ◌∙◌, String, Bool, none, some, List, [], ◌∷◌, ◌++◌, map, inl, inr, ◌⊎◌,
}
use tenso.Fetch.{FetchOutcome}
use tenso.Pipeline.{
  ParsedOutcome, StoreState, store_outcome, flush_full, flush_rest, store_loop, store_stage,
}
use tenso.Pipeline.Parsed.{parsed, parsed_eq}
use tenso.Pipeline.Tasks.{
  ParseTask, Tasks, spawn, IsRunning, Turn, fetch_sends, fetch_warns, parse_receives, parse_ends,
  parse_sends, parse_bails, store_receives, store_fails, store_ends, Run, here, next,
}
use tenso.Pipeline.Tasks.Finish.{pending, held, HasFinished}
use tenso.Storage.{StorageError, Result, ok, err}
use tenso.Storage.Runs.{Result-cases}

module _ (fault : ℕ → Bool) (to_json : List String → String) (batch_size : ℕ) where
  abbrev stage : List ParsedOutcome → StoreState → Result (Unit {0}) × StoreState
  stage = store_stage fault to_json batch_size

  pub loop-ok :
      (p : ParsedOutcome) (ps : List ParsedOutcome) (s : StoreState)
      → (store_outcome fault to_json p s).0 ≡ ok tt
      → store_loop fault to_json batch_size (p ∷ ps) s
        ≡ store_loop fault to_json batch_size ps
            (flush_full fault to_json batch_size (store_outcome fault to_json p s).1)
  unfolding store_loop
  loop-ok p ps s h = rw (h, store_loop) refl

  pub loop-err :
      (p : ParsedOutcome) (ps : List ParsedOutcome) (s : StoreState) (e : StorageError)
      → (store_outcome fault to_json p s).0 ≡ err e
      → store_loop fault to_json batch_size (p ∷ ps) s
        ≡ (err e, (store_outcome fault to_json p s).1)
  unfolding store_loop
  loop-err p ps s e h = rw (h, store_loop) refl

  -- What follows the loop.
  abbrev then_flush : Result (Unit {0}) × StoreState → Result (Unit {0}) × StoreState
  then_flush x = elim x.0 [ err e ↦ (err e, x.1) | ok u ↦ flush_rest fault to_json x.1 ]

  stage-ok :
      (p : ParsedOutcome) (ps : List ParsedOutcome) (s : StoreState)
      → (store_outcome fault to_json p s).0 ≡ ok tt
      → stage (p ∷ ps) s
        ≡ stage ps (flush_full fault to_json batch_size (store_outcome fault to_json p s).1)
  unfolding store_stage
  stage-ok p ps s h = ap then_flush (loop-ok p ps s h)

  stage-err :
      (p : ParsedOutcome) (ps : List ParsedOutcome) (s : StoreState) (e : StorageError)
      → (store_outcome fault to_json p s).0 ≡ err e
      → stage (p ∷ ps) s ≡ (err e, (store_outcome fault to_json p s).1)
  unfolding store_stage
  stage-err p ps s e h = ap then_flush (loop-err p ps s e h)

  stage-nil : (s : StoreState) → stage [] s ≡ flush_rest fault to_json s
  unfolding store_stage store_loop
  stage-nil s = refl

  running_not_ok : {p : ParseTask} → IsRunning p → p ≡ ParseTask.parse_ok → ⊥
  running_not_ok (inl e) h = cc (e, h)
  running_not_ok (inr (o, e)) h = cc (e, h)

  pub nil_or_cons : {A : Type 0} {x : A} {xs : List A} → [] ≡ x ∷ xs → ⊥
  nil_or_cons h = cc (h)

  module _ (outcomes : List FetchOutcome) (st : StoreState) where
    pub record Agrees (s : Tasks) : Type 0 where
      pub running :
          s.store_result ≡ none → stage (pending s) s.store ≡ stage (map parsed outcomes) st
      pub not_bailed : s.store_result ≡ none → ¬ (s.parse_task ≡ ParseTask.parse_bailed)
      pub drained : s.parse_task ≡ ParseTask.parse_ok → (s.sending ≡ []) × (s.fetch_channel ≡ [])
      pub returned :
          (r : Result (Unit {0}))
          → s.store_result ≡ some r
          → (r, s.store) ≡ stage (map parsed outcomes) st
      pub succeeded : s.store_result ≡ some (ok tt) → s.parse_task ≡ ParseTask.parse_ok

    Turn-Agrees : {s t : Tasks} → Turn fault to_json batch_size s t → Agrees s → Agrees t
    Turn-Agrees {s} (fetch_sends o rest at is_running room) a = record {
      running = λ h.
          ap (λ l. stage (s.parse_channel ++ (held s.parse_task ++ map parsed l)) s.store)
            (append_assoc s.fetch_channel (o ∷ []) rest ∙ ap (λ l. s.fetch_channel ++ l) (sym at))
          ∙ a.running h;
      not_bailed = a.not_bailed;
      drained = λ h. absurd (running_not_ok is_running h);
      returned = a.returned;
      succeeded = a.succeeded;
    }
    Turn-Agrees {s} (fetch_warns o rest at ended) a = record {
      running = λ h. elim ended [
        | inl e ↦ absurd (nil_or_cons (sym (a.drained e).0 ∙ at))
        | inr e ↦ absurd (a.not_bailed h e)
      ];
      not_bailed = a.not_bailed;
      drained = λ h. absurd (nil_or_cons (sym (a.drained h).0 ∙ at));
      returned = a.returned;
      succeeded = a.succeeded;
    }
    Turn-Agrees {s} (parse_receives o rest p empty at ran) a = record {
      running = λ h.
          ap (λ l. stage (s.parse_channel ++ l) s.store) (rw (empty, at, parsed_eq o p ran) refl)
          ∙ a.running h;
      not_bailed = λ h e. cc (e);
      drained = λ h. absurd (cc (h));
      returned = a.returned;
      succeeded = λ h. absurd (let e = a.succeeded h in cc (e, empty));
    }
    Turn-Agrees {s} (parse_ends empty at done) a = record {
      running = λ h.
          ap (λ l. stage (s.parse_channel ++ l) s.store) (rw (empty, at, done) refl) ∙ a.running h;
      not_bailed = λ h e. cc (e);
      drained = λ h. (done, at);
      returned = a.returned;
      succeeded = λ h. refl;
    }
    Turn-Agrees {s} (parse_sends p at is_running room) a = record {
      running = λ h.
          ap (λ l. stage l s.store)
            (rw at
              (append_assoc s.parse_channel (p ∷ []) (map parsed (s.fetch_channel ++ s.sending))))
          ∙ a.running h;
      not_bailed = λ h e. cc (e);
      drained = λ h. absurd (cc (h));
      returned = a.returned;
      succeeded = λ h. absurd (let e = a.succeeded h in cc (e, at));
    }
    Turn-Agrees {s} (parse_bails p r at ended) a = record {
      running = λ h. absurd (cc (h, ended));
      not_bailed = λ h e. absurd (cc (h, ended));
      drained = λ h. absurd (cc (h));
      returned = a.returned;
      succeeded = λ h. absurd (let e = a.succeeded h in cc (e, at));
    }
    Turn-Agrees {s} (store_receives p rest at is_running went) a = record {
      running = λ h.
          sym (stage-ok p _ s.store went)
          ∙ ap
              (λ l.
                stage (l ++ (held s.parse_task ++ map parsed (s.fetch_channel ++ s.sending)))
                  s.store)
              (sym at)
          ∙ a.running is_running;
      not_bailed = a.not_bailed;
      drained = a.drained;
      returned = λ r h. absurd (cc (h, is_running));
      succeeded = λ h. absurd (cc (h, is_running));
    }
    Turn-Agrees {s} (store_fails p rest e at is_running failed) a = record {
      running = λ h. absurd (cc (h));
      not_bailed = λ h. absurd (cc (h));
      drained = a.drained;
      returned = λ r h.
          let same : err e ≡ r = cc (h) in
          ap (λ x. (x, (store_outcome fault to_json p s.store).1)) (sym same)
          ∙ sym (stage-err p _ s.store e failed)
          ∙ ap
              (λ l.
                stage (l ++ (held s.parse_task ++ map parsed (s.fetch_channel ++ s.sending)))
                  s.store)
              (sym at)
          ∙ a.running is_running;
      succeeded = λ h. absurd (cc (h));
    }
    Turn-Agrees {s} (store_ends ended at is_running) a =
        let drained : s.parse_task ≡ ParseTask.parse_ok = elim ended [
          | inl e ↦ e
          | inr e ↦ absurd (a.not_bailed is_running e)
        ] in
        let (sent, received) = a.drained drained in
        let none_left : pending s ≡ [] = rw (at, drained, received, sent) refl in
        record {
          running = λ h. absurd (cc (h));
          not_bailed = λ h. absurd (cc (h));
          drained = a.drained;
          returned = λ r h.
              let same : (flush_rest fault to_json s.store).0 ≡ r = cc (h) in
              ap (λ x. (x, (flush_rest fault to_json s.store).1)) (sym same)
              ∙ sym (stage-nil s.store)
              ∙ ap (λ l. stage l s.store) (sym none_left)
              ∙ a.running is_running;
          succeeded = λ h. drained;
        }

    pub Run-Agrees : {s : Tasks} → Run fault to_json batch_size (spawn outcomes st) s → Agrees s
    Run-Agrees here = record {
      running = λ h. refl;
      not_bailed = λ h e. cc (e);
      drained = λ h. absurd (cc (h));
      returned = λ r h. absurd (cc (h));
      succeeded = λ h. absurd (cc (h));
    }
    Run-Agrees (next r turn) = Turn-Agrees turn (Run-Agrees r)

    -- However the tasks take turns, once all three have ended, the store task has returned what
    -- `store_stage` returns on all outcomes, parsed, in the order of the fetch task, and left the
    -- state that it leaves; and where the parse task has not ended with success, it is the store
    -- task that has failed.
    pub Tasks-store_stage :
        {s : Tasks} (r : Result (Unit {0}))
        → Run fault to_json batch_size (spawn outcomes st) s
        → HasFinished s
        → s.store_result ≡ some r
        → ((r, s.store) ≡ store_stage fault to_json batch_size (map parsed outcomes) st)
          × ((s.parse_task ≡ ParseTask.parse_ok)
              ⊎ ((e : StorageError) × (r ≡ err e) × (s.parse_task ≡ ParseTask.parse_bailed)))
    Tasks-store_stage {s} r run (sent, ended, _) h =
        let a = Run-Agrees run in
        (
          a.returned r h,
          elim (Result-cases r) [
            | inl (u, e) ↦ inl (a.succeeded (h ∙ ap some e))
            | inr (x, e) ↦ elim ended [ inl p ↦ inl p | inr p ↦ inr (x, e, p) ]
          ],
        )
