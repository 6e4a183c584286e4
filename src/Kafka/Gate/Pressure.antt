-- ===== src/Kafka/Gate/Pressure.antt =====
-- The tracker of eventbus/kafka/completion_gate.go over many gates: its counts are those of the
-- gates, up to the width of an int64.
use analytics_core.Prelude.{
  ℕ, ◌+◌, ◌%◌, ◌≡◌, refl, none, some, [], arith, word, Dict, lookup, insert, weight, weight-insert,
  if◌then◌else◌, nat_eq,
}
use analytics_core.Kafka.Gate.{
  Gate, Tracker, Gated, GateCall, adds_task, ends_task, completes_now, gate_step, new_gate,
  new_tracker,
}

abbrev open_gate : Gate → ℕ
open_gate g = if g.completed_once then 0 else 1

abbrev closed_gate : Gate → ℕ
closed_gate g = if g.completed_once then 1 else 0

-- The gates of the bus by delivery, and the tracker that they share.
pub record Gates : Type 0 where
  pub gates : Dict ℕ Gate
  pub tracker : Tracker

abbrev pub no_gates : Gates
no_gates = record { gates = []; tracker = new_tracker }

-- A message arrives, or a goroutine makes a call on the gate of one.
pub data GatesStep : Gates → Gates → Type 0 where
  opens :
      (s : Gates) (k o g : ℕ)
      → lookup k s.gates ≡ none
      → GatesStep s (record {
        gates = insert k (new_gate o g s.tracker).gate s.gates;
        tracker = (new_gate o g s.tracker).tracker;
      })
  calls :
      (s : Gates) (k : ℕ) (gate : Gate) (call : GateCall)
      → lookup k s.gates ≡ some gate
      → GatesStep s (record {
        gates =
            insert k (gate_step (record { gate = gate; tracker = s.tracker }) call).0.gate s.gates;
        tracker = (gate_step (record { gate = gate; tracker = s.tracker }) call).0.tracker;
      })

pub data GatesReach (s : Gates) : Gates → Type 0 where
  here : GatesReach s s
  next : {t u : Gates} → GatesReach s t → GatesStep t u → GatesReach s u

pub record IsCounted (s : Gates) : Type 0 where
  pub in_flight : s.tracker.in_flight_messages ≡ weight open_gate s.gates % word
  pub completed : s.tracker.completed_messages ≡ weight closed_gate s.gates % word

call_counts :
    (s : Gated) (call : GateCall) (a b a' b' : ℕ)
    → s.tracker.in_flight_messages ≡ a % word
    → s.tracker.completed_messages ≡ b % word
    → a' + open_gate s.gate ≡ a + open_gate (gate_step s call).0.gate
    → b' + closed_gate s.gate ≡ b + closed_gate (gate_step s call).0.gate
    → ((gate_step s call).0.tracker.in_flight_messages ≡ a' % word)
      × ((gate_step s call).0.tracker.completed_messages ≡ b' % word)
unfolding gate_step
call_counts s adds_task a b a' b' p q e f = ground arith
call_counts s ends_task a b a' b' p q e f = ground arith
call_counts s completes_now a b a' b' p q e f = ground arith

GatesStep-IsCounted : {s t : Gates} → GatesStep s t → IsCounted s → IsCounted t
unfolding new_gate
GatesStep-IsCounted (opens s k o g fresh) h = record {
  in_flight =
      ground (
        arith,
        fresh,
        h.in_flight,
        weight-insert open_gate k (new_gate o g s.tracker).gate s.gates,
      );
  completed = ground (
    arith,
    fresh,
    h.completed,
    weight-insert closed_gate k (new_gate o g s.tracker).gate s.gates,
  );
}
GatesStep-IsCounted (calls s k gate call found) h =
    let before : Gated = record { gate = gate; tracker = s.tracker } in
    let after : Gate = (gate_step before call).0.gate in
    let counts =
      call_counts before call (weight open_gate s.gates) (weight closed_gate s.gates)
        (weight open_gate (insert k after s.gates)) (weight closed_gate (insert k after s.gates))
        h.in_flight h.completed (ground (arith, found, weight-insert open_gate k after s.gates))
        (ground (arith, found, weight-insert closed_gate k after s.gates)) in
    record { in_flight = counts.0; completed = counts.1 }

-- Of any gates, opened and called in any interleaving, the tracker's count of messages in flight is
-- the number of gates that have not completed, and its count of completed messages the number of
-- those that have, both up to the width of an int64.
pub tracker_counts_gates : {s : Gates} → GatesReach no_gates s → IsCounted s
tracker_counts_gates here = record { in_flight = refl; completed = refl }
tracker_counts_gates (next r st) = GatesStep-IsCounted st (tracker_counts_gates r)
