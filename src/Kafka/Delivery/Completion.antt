-- ===== src/Kafka/Delivery/Completion.antt =====
-- When eventbus/kafka/bus.go completes a message, that it returns, and what becomes of the offset.
use analytics_core.Prelude.{
  ℕ, zero, suc, ◌+◌, ◌<◌, ◌≤◌, ◌≡◌, ◌⊎◌, ◌∙◌, refl, Bool, true, false, none, some, [], ◌∷◌, arith,
  Bool-cases, Option-cases, inl, inr,
}
use native.Mathlib.Decide.{dec_lt}
use analytics_core.Kafka.OrderedCommit.{completes}
use analytics_core.Kafka.Gate.{
  Tracker, GateCall, adds_task, ends_task, completes_now, new_gate, gate_run,
}
use analytics_core.Kafka.Delivery
use analytics_core.Kafka.Delivery.{
  Error, ConsumerMessage, DeadLetterRecord, Env, Run, no_run, call_handler, dead_letter_record,
  publish_dead_letter, dead_letter_until_done, complete_if, message, attempts, process, call_gate,
}
use analytics_core.Kafka.Delivery.Letters.{Interrupted}
use analytics_core.Kafka.Delivery.Verdicts.{
  round, stops, handles, gives_up, breaks_off, goes_on, succeeds, exhausts, isolates, abandons,
  answer, calls, envelope, process-Verdict,
}

-- What each pattern of calls does to a new gate.
gate_added_ended :
    (o g : ℕ) (t : Tracker)
    → (gate_run (new_gate o g t) (adds_task ∷ ends_task ∷ [])).1 ≡ completes o g ∷ []
unfolding gate_run new_gate
gate_added_ended o g t = refl

gate_now :
    (o g : ℕ) (t : Tracker)
    → (gate_run (new_gate o g t) (completes_now ∷ [])).1 ≡ completes o g ∷ []
unfolding gate_run new_gate
gate_now o g t = refl

gate_added : (o g : ℕ) (t : Tracker) → (gate_run (new_gate o g t) (adds_task ∷ [])).1 ≡ []
unfolding gate_run new_gate
gate_added o g t = refl

gate_none : (o g : ℕ) (t : Tracker) → (gate_run (new_gate o g t) []).1 ≡ []
unfolding gate_run
gate_none o g t = refl

module _ (env : Env) (m : ConsumerMessage) where
  -- The message is safe: the handler has taken it, or a record of it is on the dead-letter topic.
  abbrev pub IsSafe : Run → Type 0
  IsSafe r =
      ((k : ℕ) × (r.handled ≡ calls env m (suc k)) × (answer env m (suc k) ≡ none))
      ⊎ ((letter : DeadLetterRecord) × (r.dead_letters ≡ letter ∷ [])
          × (letter.original_topic ≡ m.topic)
          × (letter.original_partition ≡ m.partition)
          × (letter.original_offset ≡ m.offset))

  -- The gate of the message, driven by the calls that its processing makes, completes the offset
  -- once if the message is safe, and otherwise not at all, with nothing written and the session
  -- interrupted: no message is lost, and none is completed early.
  pub completes_only-IsSafe :
      (fuel o g : ℕ) (t : Tracker) (r : Run)
      → process env m fuel no_run ≡ some r
      → (((gate_run (new_gate o g t) r.gate_calls).1 ≡ completes o g ∷ []) × IsSafe r)
        ⊎ (((gate_run (new_gate o g t) r.gate_calls).1 ≡ [])
            × (r.dead_letters ≡ [])
            × Interrupted env m)
  unfolding dead_letter_record
  completes_only-IsSafe fuel o g t r h = elim (process-Verdict env m fuel r h) [
    | succeeds k room failed done handled letters made ↦
        inl (rw made (gate_added_ended o g t), inl (k, handled, done))
    | exhausts k e room failed last handled letters made ↦
        inl (rw made (gate_added_ended o g t), inr (_, letters, refl, refl, refl))
    | isolates e bad handled letters made ↦
        inl (rw made (gate_now o g t), inr (_, letters, refl, refl, refl))
    | abandons k room failed handled letters (inl made) why ↦
        inr (rw made (gate_added o g t), letters, why)
    | abandons k room failed handled letters (inr made) why ↦
        inr (rw made (gate_none o g t), letters, why)
  ]

  -- Within `fuel` dead-letter writes one succeeds, whatever the record, or its pause is cut short.
  abbrev pub Publishes : ℕ → Type 0
  Publishes fuel =
      (i : ℕ) × (i < fuel)
      × ((letter : DeadLetterRecord)
          → (publish_dead_letter env m i letter ≡ none) ⊎ (env.publish_sleep i ≡ false))

  -- The write of the number `i` ends the loop.
  abbrev Ends : DeadLetterRecord → ℕ → Type 0
  Ends letter i = (publish_dead_letter env m i letter ≡ none) ⊎ (env.publish_sleep i ≡ false)

  dead_letter_returns :
      (fuel j i : ℕ) (letter : DeadLetterRecord) (r : Run)
      → j ≤ i
      → i < j + fuel
      → Ends letter i
      → (d : Bool × Run) × (dead_letter_until_done env m fuel j letter r ≡ some d)
  unfolding dead_letter_until_done
  dead_letter_returns zero j i letter r le lt h = absurd (omega arith)
  dead_letter_returns (suc fuel) j i letter r le lt h =
      elim (Option-cases (publish_dead_letter env m j letter)) [
        | inl done ↦ ((true, Delivery.published env m letter r), ground (arith, done))
        | inr (e, failed) ↦ elim (Bool-cases (env.publish_sleep j)) [
          | inr woken ↦ ((false, Delivery.not_published env m r), ground (arith, failed, woken))
          | inl slept ↦
              let (d, eq) =
                dead_letter_returns fuel (j + 1) i letter (Delivery.not_published env m r)
                  (later e failed slept) (omega arith) h in
              (d, ground (arith, failed, slept, eq))
        ]
      ]
    where
      later :
          (e : Error)
          → publish_dead_letter env m j letter ≡ some e
          → env.publish_sleep j ≡ true
          → j + 1 ≤ i
      later e failed slept = elim (dec_lt j i) [
        | yes less ↦ omega arith
        | no not_less ↦
            let same : j ≡ i = omega arith in absurd (ground (arith, same, failed, slept, h))
      ]

  complete_if-returns :
      (fuel : ℕ) (call : GateCall) (letter : DeadLetterRecord) (r : Run)
      → Publishes fuel
      → (r' : Run) × (complete_if env m call (dead_letter_until_done env m fuel 0 letter r)
          ≡ some r')
  unfolding complete_if
  complete_if-returns fuel call letter r (i, lt, h) =
      let (d, eq) = dead_letter_returns fuel 0 i letter r (omega arith) (omega arith) (h letter) in
      let (written, w) = d in rw eq (decide written w)
    where
      decide :
          (written : Bool) (w : Run)
          → (r' : Run) × (complete_if env m call (some (written, w)) ≡ some r')
      decide true w = (call_gate call w, refl)
      decide false w = (w, refl)

  attempts-return :
      (fuel rounds k : ℕ) (r : Run)
      → Publishes fuel
      → (k ≡ 0) ⊎ (k < env.max_attempts)
      → env.max_attempts < k + rounds
      → (r' : Run) × (attempts env m fuel rounds (envelope env m) (suc k) r ≡ some r')
  attempts-return fuel zero k r p room enough = absurd (ground arith)
  attempts-return fuel (suc rounds) k r p room enough = elim (round env m fuel rounds k r) [
    | stops why e ↦ (_, e)
    | handles h e ↦ (_, e)
    | gives_up x h last e ↦ let (r', eq) = complete_if-returns fuel ends_task _ _ p in (r', e ∙ eq)
    | breaks_off x h more why e ↦ (_, e)
    | goes_on x h more e ↦
        let (r', eq) = attempts-return fuel rounds (suc k) _ p (inr more) (omega arith) in
        (r', e ∙ eq)
  ]

  process-returns : (fuel : ℕ) → Publishes fuel → (r : Run) × (process env m fuel no_run ≡ some r)
  unfolding process
  process-returns fuel p = elim (Option-cases (env.unmarshal m.value).0) [
    | inr (e, bad) ↦
        let (r, eq) =
          complete_if-returns fuel completes_now
            (dead_letter_record env m 1 (envelope env m) e m.value)
            (Delivery.malformed env m no_run) p in
        (r, rw (bad, process) eq)
    | inl good ↦
        let (r, eq) =
          attempts-return fuel (suc env.max_attempts) 0 (call_gate adds_task no_run) p (inl refl)
            (omega arith) in
        (r, rw (good, process) eq)
  ]

  -- If the session is never interrupted and one of the first `fuel` dead-letter writes succeeds,
  -- whatever the record, then the processing of the message returns, whatever the handler does, its
  -- gate completes the offset once, and the message is safe.
  pub live_session_completes :
      (fuel o g : ℕ) (t : Tracker)
      → Publishes fuel
      → ¬ Interrupted env m
      → (r : Run) × (process env m fuel no_run ≡ some r)
        × ((gate_run (new_gate o g t) r.gate_calls).1 ≡ completes o g ∷ [])
        × IsSafe r
  live_session_completes fuel o g t p live =
      let (r, eq) = process-returns fuel p in
      elim (completes_only-IsSafe fuel o g t r eq) [
        | inl (done, safe) ↦ (r, eq, done, safe)
        | inr (nothing, letters, why) ↦ absurd (live why)
      ]
