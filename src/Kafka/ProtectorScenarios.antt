-- ===== src/Kafka/ProtectorScenarios.antt =====
-- Runs of the protector of eventbus/kafka/protector.go at concrete inputs.
use analytics_core.Prelude.{
  ℕ, Text, ◌≡◌, refl, false, some, [], ◌∷◌, txt, lookup, insert, text_beq, arith,
}
use analytics_core.Contracts.{finite}
use analytics_core.Kafka.Protector.{
  ConsumptionProtector, ConsumptionSnapshot, pauses, resumes, observes, reconciles, protector_step,
  protector_run, observe, has_hard_pressure, paused_partitions, split_commit_key, commit_key,
}
use analytics_core.Kafka.Protector.Mirror.{
  held, names_partition, ResumesWhatIsHeld, protector-mirrors, split-commit_key,
}

-- One partition with too many pending offsets, and the same one with none.
abbrev pressed : ConsumptionSnapshot
pressed = record {
  commits = record { key = txt "events:3"; pending_count = 10000 } ∷ [];
  in_flight_messages = 5;
  waiting_tasks = 5;
  queue_usage_ratio = finite false 1 1073;
}

abbrev calm : ConsumptionSnapshot
calm = record {
  commits = record { key = txt "events:3"; pending_count = 0 } ∷ [];
  in_flight_messages = 0;
  waiting_tasks = 0;
  queue_usage_ratio = finite false 0 0;
}

-- The threshold of the queue is 1 here.
abbrev protector : ConsumptionProtector
protector = record {
  paused = [];
  pause_transitions_total = 0;
  resume_transitions_total = 0;
  hard_pending = 10000;
  hard_gate = 10000;
  hard_queue_ratio = finite false 1 1074;
}

pauses_once :
    (protector_run protector (observes pressed ∷ observes pressed ∷ observes calm ∷ [])).1
    ≡ pauses ((txt "events", 3 ∷ []) ∷ []) ∷ resumes ((txt "events", 3 ∷ []) ∷ []) ∷ []
unfolding protector_run protector_step observe has_hard_pressure paused_partitions split_commit_key
    lookup insert text_beq
pauses_once = refl

protector-mirrors_example :
    let r = protector_run protector (observes pressed ∷ reconciles pressed ∷ observes calm ∷ []) in
    ((topic : Text) (n : ℕ)
      → held (names_partition []) r.1 topic n ≡ names_partition r.0.paused topic n)
    × ResumesWhatIsHeld (names_partition []) r.1
protector-mirrors_example =
    protector-mirrors protector (observes pressed ∷ reconciles pressed ∷ observes calm ∷ [])

split-commit_key_example :
    split_commit_key (commit_key (txt "eu:events") 42) ≡ some (txt "eu:events", 42)
split-commit_key_example = split-commit_key (txt "eu:events") 42 refl (omega arith)
