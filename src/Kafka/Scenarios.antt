-- ===== src/Kafka/Scenarios.antt =====
-- Runs of the Kafka provider, eventbus/kafka, at concrete inputs.
use analytics_core.Prelude.{
  ℕ, ◌<◌, ◌≡◌, ◌⊎◌, refl, true, false, none, some, List, [], ◌∷◌, ◌++◌, arith, All, lookup, insert,
  delete, nat_eq, inl, txt, ◌==◌, if◌then◌else◌,
}
use analytics_core.Contracts.{EventEnvelope}
use analytics_core.Kafka.OrderedCommit.{
  Committer, Call, registers, completes, observes, new_committer, complete, run,
}
use analytics_core.Kafka.OrderedCommit.Invariant.{IsWellFormed, run-IsWellFormed}
use analytics_core.Kafka.OrderedCommit.Marks.{
  IsFaithful, Outcome, complete-Outcome, complete_blocked, consecutive,
}
use analytics_core.Kafka.OrderedCommit.History.{Completed, marked_needs_complete}
use analytics_core.Kafka.OrderedCommit.Stall.{IsStalled, gap_stalls}
use analytics_core.Kafka.OrderedCommit.Registering.{registrations}
use analytics_core.Kafka.OrderedCommit.Liveness.{completions, all_orders_mark_all}
use analytics_core.Kafka.Gate.{
  GateCall, adds_task, ends_task, completes_now, new_tracker, new_gate, gate_run,
}
use analytics_core.Kafka.Gate.Once.{gate_completes_once, last_task_completes}
use analytics_core.Kafka.Gate.Pressure.{
  Gates, no_gates, GatesReach, here, next, opens, IsCounted, tracker_counts_gates,
}
use analytics_core.Kafka.Delivery.{
  ConsumerMessage, Env, Run, no_run, panics, process, attempts, dead_letter_until_done,
  publish_dead_letter, call_handler, dead_letter_record, message,
}
use analytics_core.Kafka.Delivery.Letters.{Interrupted}
use analytics_core.Kafka.Delivery.Verdicts.{Verdict, process-Verdict}
use analytics_core.Kafka.Delivery.Completion.{
  IsSafe, Publishes, completes_only-IsSafe, live_session_completes,
}

-- Two messages of generation 1, of which the later one finishes first.
abbrev out_of_order : List Call
out_of_order =
    registers 10 1 (some 10) ∷ registers 11 1 (some 11) ∷ observes 12 ∷ completes 11 1 ∷ []

out_of_order_waits : (run new_committer out_of_order).1 ≡ []
unfolding run new_committer lookup insert
out_of_order_waits = refl

in_the_end : (run new_committer (out_of_order ++ completes 10 1 ∷ [])).1 ≡ 10 ∷ 11 ∷ []
unfolding run new_committer lookup insert delete
in_the_end = refl

all_orders_mark_all_example :
    let r =
      run new_committer (registrations 1 (consecutive 10 3) ++ completions 1 (12 ∷ 10 ∷ 11 ∷ [])) in
    (r.1 ≡ consecutive 10 3) × (r.0.states ≡ [])
all_orders_mark_all_example =
    all_orders_mark_all 1 10 3 (12 ∷ 10 ∷ 11 ∷ []) (omega arith) (λ j a b. ground arith)

run-IsWellFormed_example : IsWellFormed (run new_committer out_of_order).0
run-IsWellFormed_example = run-IsWellFormed out_of_order

marked_needs_complete_example :
    All
      (λ o. Completed o (out_of_order ++ completes 10 1 ∷ []))
      (run new_committer (out_of_order ++ completes 10 1 ∷ [])).1
marked_needs_complete_example =
    marked_needs_complete (out_of_order ++ completes 10 1 ∷ [])
      ((refl, omega arith), ((refl, omega arith), (tt, (tt, (tt, tt)))))

-- The committer behind the calls above.
abbrev waiting : Committer
waiting = record {
  initialized = true;
  generation_id = 1;
  next_offset = 10;
  high_water_mark_offset = 12;
  states =
      (10, record { done = false; generation_id = 1; mark_fn = some 10 })
      ∷ (11, record { done = true; generation_id = 1; mark_fn = some 11 })
      ∷ [];
  done_count = 1;
  last_registered_offset = 11;
  largest_register_gap = 1;
}

waiting_lem : (run new_committer out_of_order).0 ≡ waiting
unfolding run new_committer lookup insert
waiting_lem = refl

waiting-IsFaithful : IsFaithful waiting.states
unfolding lookup
waiting-IsFaithful o s at = ground arith

complete-Outcome_example : (n : ℕ) × Outcome 10 waiting (complete 10 1 waiting) n
complete-Outcome_example = complete-Outcome 10 1 waiting waiting-IsFaithful

complete_blocked_example : All (λ (m : ℕ). m < 10) (complete 11 1 waiting).1
unfolding lookup
complete_blocked_example =
    complete_blocked 11 1 10 waiting waiting-IsFaithful (omega arith) (omega arith) (λ e. cc)

-- Offset 11 does not exist, and 12 is completed.
abbrev behind_a_gap : Committer
behind_a_gap = record {
  initialized = true;
  generation_id = 1;
  next_offset = 11;
  high_water_mark_offset = 13;
  states = (12, record { done = true; generation_id = 1; mark_fn = some 12 }) ∷ [];
  done_count = 1;
  last_registered_offset = 12;
  largest_register_gap = 2;
}

abbrev gapped : List Call
gapped =
    registers 10 1 (some 10)
    ∷ registers 12 1 (some 12)
    ∷ observes 13
    ∷ completes 10 1
    ∷ completes 12 1
    ∷ []

gap_reached : (run new_committer gapped).0 ≡ behind_a_gap
unfolding run new_committer lookup insert delete
gap_reached = refl

behind_a_gap-IsStalled : IsStalled 1 11 behind_a_gap
unfolding lookup
behind_a_gap-IsStalled = record {
  started = refl;
  active = refl;
  waits = refl;
  absent = refl;
  pending = λ e. cc;
}

gap_stalls_example :
    (run behind_a_gap (registers 13 1 (some 13) ∷ completes 13 1 ∷ completes 12 1 ∷ [])).1 ≡ []
gap_stalls_example =
    gap_stalls 1 11 behind_a_gap (registers 13 1 (some 13) ∷ completes 13 1 ∷ completes 12 1 ∷ [])
      behind_a_gap-IsStalled ((refl, omega arith), (tt, (tt, tt)))

gate_completes_once_example :
    let r = gate_run (new_gate 10 1 new_tracker) (completes_now ∷ adds_task ∷ ends_task ∷ []) in
    ((r.1 ≡ []) × (r.0.gate.completed_once ≡ false))
    ⊎ ((r.1 ≡ completes 10 1 ∷ []) × (r.0.gate.completed_once ≡ true))
gate_completes_once_example =
    gate_completes_once 10 1 new_tracker (completes_now ∷ adds_task ∷ ends_task ∷ [])

-- Of three tasks the last one is added behind the end of another, and the handler returns.
last_task_completes_example :
    let calls : List GateCall =
      adds_task ∷ ends_task ∷ adds_task ∷ completes_now ∷ ends_task ∷ [] in
    ((gate_run (new_gate 10 1 new_tracker) (adds_task ∷ calls)).1 ≡ [])
    × ((gate_run (new_gate 10 1 new_tracker) (adds_task ∷ (calls ++ ends_task ∷ []))).1
        ≡ completes 10 1 ∷ [])
last_task_completes_example =
    last_task_completes 10 1 new_tracker
      (adds_task ∷ ends_task ∷ adds_task ∷ completes_now ∷ ends_task ∷ [])
      (omega arith, (omega arith, (omega arith, (omega arith, tt))))

abbrev one_gate : Gates
one_gate = record {
  gates = insert 0 (new_gate 10 1 new_tracker).gate [];
  tracker = (new_gate 10 1 new_tracker).tracker;
}

one_gate_reached : GatesReach no_gates one_gate
unfolding lookup
one_gate_reached = next here (opens no_gates 0 10 1 refl)

tracker_counts_gates_example : IsCounted one_gate
tracker_counts_gates_example = tracker_counts_gates one_gate_reached

abbrev envelope : EventEnvelope
envelope = record {
  id = txt "evt-1";
  tenant_id = txt "tenant_1";
  project_id = txt "project_1";
  source_id = txt "web";
  source_type = txt "web";
  event_name = txt "pageview";
  distinct_id = txt "user:42";
  session_id = [];
  visit_id = [];
  event_time = 63000000000000000000;
  received_at = 63000000001000000000;
  properties = [];
  user_props = [];
  source = [];
}

abbrev consumed : ConsumerMessage
consumed = record {
  topic = txt "analytics.events";
  partition = 3;
  offset = 10;
  key = [];
  value = txt "{}";
}

-- The handler panics at every attempt, and the first write to the dead-letter topic fails.
abbrev poison : Env
poison = record {
  max_attempts = 2;
  dead_letter_topic = txt "analytics.events.dead";
  group_name = txt "ingestion";
  group_consumer = txt "worker-1";
  unmarshal = λ raw. (none, envelope);
  handler = λ message. panics (txt "boom");
  cancelled = λ attempt. false;
  retry_sleep = λ attempt. true;
  publish_cancelled = λ i. none;
  marshal = λ letter. none;
  send = λ i. if i == 0 then some (txt "broker down") else none;
  publish_sleep = λ i. true;
}

poison-Publishes : Publishes poison consumed 2
unfolding publish_dead_letter
poison-Publishes = (1, omega arith, λ letter. inl refl)

poison_alive : ¬ Interrupted poison consumed
poison_alive h = ground arith

live_session_completes_example :
    (r : Run) × (process poison consumed 2 no_run ≡ some r)
    × ((gate_run (new_gate 10 1 new_tracker) r.gate_calls).1 ≡ completes 10 1 ∷ [])
    × IsSafe poison consumed r
live_session_completes_example =
    live_session_completes poison consumed 2 10 1 new_tracker poison-Publishes poison_alive

abbrev poisoned : Run
poisoned = record {
  malformed_total = 0;
  handler_success_total = 0;
  handler_failure_total = 2;
  handler_retry_total = 1;
  dead_letter_success_total = 1;
  dead_letter_failure_total = 1;
  gate_calls = adds_task ∷ ends_task ∷ [];
  handled = message poison consumed envelope 1 ∷ message poison consumed envelope 2 ∷ [];
  dead_letters =
      dead_letter_record poison consumed 2 envelope (txt "kafka handler panic: boom") [] ∷ [];
}

poisoned_lem : process poison consumed 2 no_run ≡ some poisoned
unfolding process attempts dead_letter_until_done publish_dead_letter call_handler
poisoned_lem = refl

process-Verdict_example : Verdict poison consumed poisoned
process-Verdict_example = process-Verdict poison consumed 2 poisoned poisoned_lem

completes_only-IsSafe_example :
    (((gate_run (new_gate 10 1 new_tracker) poisoned.gate_calls).1 ≡ completes 10 1 ∷ [])
      × IsSafe poison consumed poisoned)
    ⊎ (((gate_run (new_gate 10 1 new_tracker) poisoned.gate_calls).1 ≡ [])
        × (poisoned.dead_letters ≡ [])
        × Interrupted poison consumed)
completes_only-IsSafe_example =
    completes_only-IsSafe poison consumed 2 10 1 new_tracker poisoned poisoned_lem
