-- ===== src/Kafka/Delivery/Verdicts.antt =====
-- The ways in which eventbus/kafka/bus.go ends with a message.
use analytics_core.Prelude.{
  ℕ, zero, suc, ◌<◌, ◌≤◌, ◌≡◌, ◌≢◌, ◌⊎◌, ◌∙◌, refl, sym, Bool, true, false, Option, none, some,
  List, [], ◌∷◌, ◌++◌, leb, arith, Bool-cases, Option-cases, inl, inr, some_eq,
}
use Prim.Native.Nat.{max}
use mathlib.Core.Path.{subst}
use native.Mathlib.Numerals.{add-one}
use analytics_core.Contracts.{EventEnvelope}
use analytics_core.Kafka.Gate.{adds_task, ends_task, completes_now}
use analytics_core.Kafka.Delivery
use analytics_core.Kafka.Delivery.{
  Error, ConsumerMessage, Message, DeadLetterRecord, Env, Run, no_run, call_handler,
  dead_letter_record, publish_dead_letter, dead_letter_until_done, complete_if, message, attempts,
  process, call_gate, not_published,
}
use analytics_core.Kafka.Delivery.Letters.{Interrupted, Settled, settle}

module _ (env : Env) (m : ConsumerMessage) where
  abbrev pub envelope : EventEnvelope
  envelope = (env.unmarshal m.value).1

  -- The calls of the handler in the first `k` attempts.
  abbrev pub calls : ℕ → List Message
  calls zero = []
  calls (suc k) = calls k ++ message env m envelope (suc k) ∷ []

  abbrev pub answer : ℕ → Option Error
  answer attempt = call_handler env m (message env m envelope attempt)

  -- The handler failed in each of the first `k` attempts.
  abbrev pub AllFailed : ℕ → Type 0
  AllFailed zero = Unit
  AllFailed (suc k) = AllFailed k × (answer (suc k) ≢ none)

  abbrev pub attempt_limit : ℕ
  attempt_limit = max 1 env.max_attempts

  -- How a message ends.
  pub data Verdict (r : Run) : Type 0 where
    succeeds :
        (k : ℕ)
        → suc k ≤ attempt_limit
        → AllFailed k
        → answer (suc k) ≡ none
        → r.handled ≡ calls (suc k)
        → r.dead_letters ≡ []
        → r.gate_calls ≡ adds_task ∷ ends_task ∷ []
        → Verdict r
    exhausts :
        (k : ℕ) (e : Error)
        → suc k ≡ attempt_limit
        → AllFailed k
        → answer (suc k) ≡ some e
        → r.handled ≡ calls (suc k)
        → r.dead_letters ≡ dead_letter_record env m (suc k) envelope e [] ∷ []
        → r.gate_calls ≡ adds_task ∷ ends_task ∷ []
        → Verdict r
    isolates :
        (e : Error)
        → (env.unmarshal m.value).0 ≡ some e
        → r.handled ≡ []
        → r.dead_letters ≡ dead_letter_record env m 1 envelope e m.value ∷ []
        → r.gate_calls ≡ completes_now ∷ []
        → Verdict r
    abandons :
        (k : ℕ)
        → k ≤ attempt_limit
        → AllFailed k
        → r.handled ≡ calls k
        → r.dead_letters ≡ []
        → (r.gate_calls ≡ adds_task ∷ []) ⊎ (r.gate_calls ≡ [])
        → Interrupted env m
        → Verdict r

  -- Behind `k` attempts that failed.
  record Tried (k : ℕ) (r : Run) : Type 0 where
    failed : AllFailed k
    handled : r.handled ≡ calls k
    dead_letters : r.dead_letters ≡ []
    gate_calls : r.gate_calls ≡ adds_task ∷ []

  Tried-suc :
      (k : ℕ) (r : Run) (e : Error)
      → Tried k r
      → answer (suc k) ≡ some e
      → Tried (suc k) (Delivery.failed env m (message env m envelope (suc k)) r)
  unfolding Delivery.failed
  Tried-suc k r e t h = record {
    failed = (t.failed, λ n. cc);
    handled = rw t.handled;
    dead_letters = t.dead_letters;
    gate_calls = t.gate_calls;
  }

  -- The last attempt: what the dead-letter loop leaves decides.
  exhausted :
      (k fuel : ℕ) (r r' : Run) (e : Error)
      → suc k ≡ attempt_limit
      → Tried (suc k) r
      → answer (suc k) ≡ some e
      → complete_if env m ends_task
          (dead_letter_until_done env m fuel 0 (dead_letter_record env m (suc k) envelope e []) r)
        ≡ some r'
      → Verdict r'
  exhausted k fuel r r' e last t h eq =
      let (written, w) =
        settle env m ends_task fuel (dead_letter_record env m (suc k) envelope e []) r r' eq in
      decide written w
    where
      decide :
          (written : Bool)
          → Settled env m ends_task (dead_letter_record env m (suc k) envelope e []) r written r'
          → Verdict r'
      decide true w =
          exhausts k e last t.failed.0 h (w.handled ∙ t.handled)
            (cc (w.dead_letters, t.dead_letters)) (cc (w.gate_calls, t.gate_calls))
      decide false w =
          abandons (suc k) (omega (arith, last)) t.failed (w.handled ∙ t.handled)
            (w.dead_letters ∙ t.dead_letters) (inl (w.gate_calls ∙ t.gate_calls))
            (w.interrupted refl)

  abandoned : (k : ℕ) (r : Run) → k ≤ attempt_limit → Tried k r → Interrupted env m → Verdict r
  abandoned k r room t why =
      abandons k room t.failed t.handled t.dead_letters (inl t.gate_calls) why

  Tried-retried : (k : ℕ) (r : Run) → Tried k r → Tried k (Delivery.retried env m r)
  unfolding Delivery.retried
  Tried-retried k r t = record {
    failed = t.failed;
    handled = t.handled;
    dead_letters = t.dead_letters;
    gate_calls = t.gate_calls;
  }

  success :
      (k : ℕ) (r : Run)
      → k < attempt_limit
      → Tried k r
      → answer (suc k) ≡ none
      → Verdict (Delivery.succeeded env m (message env m envelope (suc k)) r)
  unfolding Delivery.succeeded call_gate
  success k r room t h = succeeds k room t.failed h (rw t.handled) t.dead_letters (rw t.gate_calls)

  -- One round of the loop, by the tests that it makes.
  pub data Round (fuel rounds k : ℕ) (r : Run) (next : Option Run) : Type 0 where
    stops : Interrupted env m → next ≡ some r → Round fuel rounds k r next
    handles :
        answer (suc k) ≡ none
        → next ≡ some (Delivery.succeeded env m (message env m envelope (suc k)) r)
        → Round fuel rounds k r next
    gives_up :
        (e : Error)
        → answer (suc k) ≡ some e
        → env.max_attempts ≤ suc k
        → next
          ≡ complete_if env m ends_task (
              dead_letter_until_done env m fuel 0
                (dead_letter_record env m (suc k) envelope e [])
                (Delivery.failed env m (message env m envelope (suc k)) r))
        → Round fuel rounds k r next
    breaks_off :
        (e : Error)
        → answer (suc k) ≡ some e
        → suc k < env.max_attempts
        → Interrupted env m
        → next
          ≡ some (Delivery.retried env m (Delivery.failed env m (message env m envelope (suc k)) r))
        → Round fuel rounds k r next
    goes_on :
        (e : Error)
        → answer (suc k) ≡ some e
        → suc k < env.max_attempts
        → next
          ≡ attempts env m fuel rounds envelope
              (suc (suc k))
              (Delivery.retried env m (Delivery.failed env m (message env m envelope (suc k)) r))
        → Round fuel rounds k r next

  pub round :
      (fuel rounds k : ℕ) (r : Run)
      → Round fuel rounds k r (attempts env m fuel (suc rounds) envelope (suc k) r)
  unfolding attempts
  round fuel rounds k r = elim (Bool-cases (env.cancelled (suc k))) [
    | inl now ↦ stops (inl (suc k, now)) (rw now)
    | inr later ↦ elim (Option-cases (answer (suc k))) [
      | inl done ↦ handles done (rw (later, done))
      | inr (e, failed) ↦ elim (Bool-cases (leb env.max_attempts (suc k))) [
        | inl last ↦ gives_up e failed (ground arith) (rw (later, failed, last))
        | inr more ↦ elim (Bool-cases (env.retry_sleep (suc k))) [
          | inl slept ↦ goes_on e failed (ground arith) (rw (later, failed, more, slept, add-one))
          | inr woken ↦
              breaks_off e failed (ground arith) (inr (inl (suc k, woken)))
                (rw (later, failed, more, woken))
        ]
      ]
    ]
  ]

  attempts-Verdict :
      (fuel rounds k : ℕ) (r r' : Run)
      → k < attempt_limit
      → Tried k r
      → attempts env m fuel rounds envelope (suc k) r ≡ some r'
      → Verdict r'
  attempts-Verdict fuel zero k r r' room t eq = unfold attempts in cc
  attempts-Verdict fuel (suc rounds) k r r' room t eq = elim (round fuel rounds k r) [
    | stops why e ↦ subst Verdict (some_eq (sym e ∙ eq)) (abandoned k r (omega arith) t why)
    | handles h e ↦ subst Verdict (some_eq (sym e ∙ eq)) (success k r room t h)
    | gives_up x h last e ↦
        exhausted k fuel (Delivery.failed env m (message env m envelope (suc k)) r) r' x
          (omega arith) (Tried-suc k r x t h) h (sym e ∙ eq)
    | breaks_off x h more why e ↦
        let k1 = Tried-suc k r x t h in
        subst Verdict (some_eq (sym e ∙ eq))
          (abandoned (suc k) _ (omega arith) (Tried-retried (suc k) _ k1) why)
    | goes_on x h more e ↦
        attempts-Verdict fuel rounds (suc k)
          (Delivery.retried env m (Delivery.failed env m (message env m envelope (suc k)) r)) r'
          (omega arith) (Tried-retried (suc k) _ (Tried-suc k r x t h)) (sym e ∙ eq)
  ]

  malformed-Verdict :
      (fuel : ℕ) (r' : Run) (e : Error)
      → (env.unmarshal m.value).0 ≡ some e
      → complete_if env m completes_now (
          dead_letter_until_done env m fuel 0
            (dead_letter_record env m 1 envelope e m.value)
            (Delivery.malformed env m no_run))
        ≡ some r'
      → Verdict r'
  unfolding Delivery.malformed
  malformed-Verdict fuel r' e bad eq =
      let (written, w) =
        settle env m completes_now fuel (dead_letter_record env m 1 envelope e m.value)
          (Delivery.malformed env m no_run) r' eq in
      decide written w
    where
      decide :
          (written : Bool)
          → Settled env m completes_now
              (dead_letter_record env m 1 envelope e m.value)
              (Delivery.malformed env m no_run)
              written
              r'
          → Verdict r'
      decide true w = isolates e bad w.handled w.dead_letters w.gate_calls
      decide false w =
          abandons 0 (omega arith) tt w.handled w.dead_letters (inr w.gate_calls)
            (w.interrupted refl)

  -- Whenever the processing of a message returns, it has ended in one of four ways: the handler
  -- succeeded after fewer failures than the limit allows, and the message is complete; it failed in
  -- every attempt up to the limit, one record of the last failure is on the dead-letter topic, and
  -- the message is complete; the message could not be decoded, the handler was never called, one
  -- record with the raw payload is on the dead-letter topic, and the message is complete; or the
  -- session was cancelled, nothing was written, and the message is not complete.
  pub process-Verdict : (fuel : ℕ) (r : Run) → process env m fuel no_run ≡ some r → Verdict r
  unfolding process
  process-Verdict fuel r eq = elim (Option-cases (env.unmarshal m.value).0) [
    | inr (e, bad) ↦ malformed-Verdict fuel r e bad (rw (bad, process) at eq)
    | inl good ↦
        attempts-Verdict fuel (suc env.max_attempts) 0 (call_gate adds_task no_run) r (omega arith)
          (unfold call_gate in
            record { failed = tt; handled = refl; dead_letters = refl; gate_calls = refl })
          (rw (good, process) at eq)
  ]
