-- ===== src/Kafka/Gate.antt =====
-- eventbus/kafka/completion_gate.go: one message's offset is completed when its own work ends.
-- The atomic operations of a method are read as one step; a tracker is shared by all gates.
pub mod Once
pub mod Pressure
use analytics_core.Prelude.{
  ℕ, Bool, true, false, not, List, [], ◌∷◌, ◌++◌, ◌==◌, if◌then◌else◌, add32, sub32, add64, sub64,
}
use analytics_core.Kafka.OrderedCommit.{completes}
use analytics_core.Kafka.OrderedCommit

pub record Gate : Type 0 where
  pub offset : ℕ
  pub generation_id : ℕ
  pub remaining_tasks : ℕ
  pub completed_once : Bool

pub record Tracker : Type 0 where
  pub in_flight_messages : ℕ
  pub waiting_tasks : ℕ
  pub completed_messages : ℕ

abbrev pub new_tracker : Tracker
new_tracker = record { in_flight_messages = 0; waiting_tasks = 0; completed_messages = 0 }

abbrev pub track_gate_created : Tracker → Tracker
track_gate_created t = record t { in_flight_messages = add64 t.in_flight_messages 1 }

abbrev pub track_task_added : Tracker → Tracker
track_task_added t = record t { waiting_tasks = add64 t.waiting_tasks 1 }

abbrev pub track_task_done : Tracker → Tracker
track_task_done t = record t { waiting_tasks = sub64 t.waiting_tasks 1 }

abbrev pub track_completed : Tracker → Tracker
track_completed t = record t {
  in_flight_messages = sub64 t.in_flight_messages 1;
  completed_messages = add64 t.completed_messages 1;
}

-- A gate beside the tracker, and the calls of the committer's `Complete` that a method makes.
pub record Gated : Type 0 where
  pub gate : Gate
  pub tracker : Tracker

unfoldable pub new_gate : ℕ → ℕ → Tracker → Gated
new_gate offset generation_id tracker = record {
  gate = record {
    offset = offset;
    generation_id = generation_id;
    remaining_tasks = 0;
    completed_once = false;
  };
  tracker = track_gate_created tracker;
}

unfoldable pub add_task : Gated → Gated
add_task s = record {
  gate = record s.gate { remaining_tasks = add32 s.gate.remaining_tasks 1 };
  tracker = track_task_added s.tracker;
}

-- `completedOnce.Do(…)`
pub complete_gate : Gated → Gated × List OrderedCommit.Call
complete_gate s = if s.gate.completed_once then (s, []) else (
  record { gate = record s.gate { completed_once = true }; tracker = track_completed s.tracker },
  completes s.gate.offset s.gate.generation_id ∷ [],
)

unfoldable pub task_done : Gated → Gated × List OrderedCommit.Call
unfolding complete_gate
task_done s =
    let remaining = sub32 s.gate.remaining_tasks 1 in
    let counted : Gated = record {
      gate = record s.gate { remaining_tasks = remaining };
      tracker = track_task_done s.tracker;
    } in
    if remaining == 0 then complete_gate counted else (counted, [])

unfoldable pub no_async_task_complete_now : Gated → Gated × List OrderedCommit.Call
unfolding complete_gate
no_async_task_complete_now s = if s.gate.remaining_tasks == 0 then complete_gate s else (s, [])

-- The calls that the goroutines of a message make, in any order.
pub data GateCall : Type 0 where
  adds_task ends_task completes_now : GateCall

unfoldable pub gate_step : Gated → GateCall → Gated × List OrderedCommit.Call
unfolding add_task task_done no_async_task_complete_now
gate_step s adds_task = (add_task s, [])
gate_step s ends_task = task_done s
gate_step s completes_now = no_async_task_complete_now s

unfoldable pub gate_run : Gated → List GateCall → Gated × List OrderedCommit.Call
unfolding gate_step
gate_run s [] = (s, [])
gate_run s (call ∷ calls) =
    let (s', made) = gate_step s call in let (s'', more) = gate_run s' calls in (s'', made ++ more)
