-- ===== src/Kafka/Gate/Once.antt =====
-- A gate of eventbus/kafka/completion_gate.go completes its offset at most once, and when its last
-- task ends.
use analytics_core.Prelude.{
  ℕ, suc, ◌+◌, ◌-◌, sym, ap, ◌∙◌, ◌<◌, ◌≡◌, ◌⊎◌, refl, Bool, true, false, List, [], ◌∷◌, ◌++◌, ◌==◌,
  arith, length, length-append, if◌then◌else◌, half_word32, inl,
}
use mathlib.Core.List.{append-nil}
use analytics_core.Kafka.OrderedCommit.{completes}
use analytics_core.Kafka.Gate.{
  Tracker, Gated, GateCall, adds_task, ends_task, completes_now, gate_step, gate_run, add_task,
  new_gate,
}

abbrev done_count : Bool → ℕ
done_count b = if b then 1 else 0

-- One method makes at most one call of `Complete`, for the gate's own offset and generation, and
-- it does so exactly when it sets the flag.
step-once :
    (s : Gated) (call : GateCall)
    → (done_count s.gate.completed_once + length (gate_step s call).1
        ≡ done_count (gate_step s call).0.gate.completed_once)
      × (((gate_step s call).1 ≡ [])
          ⊎ ((gate_step s call).1 ≡ completes s.gate.offset s.gate.generation_id ∷ []))
      × ((gate_step s call).0.gate.offset ≡ s.gate.offset)
      × ((gate_step s call).0.gate.generation_id ≡ s.gate.generation_id)
unfolding gate_step
step-once s adds_task = ground arith
step-once s ends_task = ground arith
step-once s completes_now = ground arith

run-once :
    (s : Gated) (calls : List GateCall)
    → done_count s.gate.completed_once + length (gate_run s calls).1
      ≡ done_count (gate_run s calls).0.gate.completed_once
unfolding gate_run
run-once s [] = omega arith
run-once s (call ∷ calls) =
    let (s', made) = gate_step s call in
    omega (
      arith,
      step-once s call,
      run-once (gate_step s call).0 calls,
      length-append (gate_step s call).1 (gate_run (gate_step s call).0 calls).1,
    )

run-own :
    (s : Gated) (calls : List GateCall)
    → ((gate_run s calls).1 ≡ [])
      ⊎ ((gate_run s calls).1 ≡ completes s.gate.offset s.gate.generation_id ∷ [])
unfolding gate_run
run-own s [] = inl refl
run-own s (call ∷ calls) = ground (
  arith,
  step-once s call,
  run-own (gate_step s call).0 calls,
  run-once (gate_step s call).0 calls,
  run-once s (call ∷ calls),
)

-- Whatever calls of `AddTask`, `TaskDone` and `NoAsyncTaskCompleteNow` are made on a new gate, in
-- whatever order, the committer's `Complete` is called at most once, and for the gate's offset and
-- generation; and it has been called exactly if the gate is recorded as completed.
pub gate_completes_once :
    (o g : ℕ) (t : Tracker) (calls : List GateCall)
    → let r = gate_run (new_gate o g t) calls in
      ((r.1 ≡ []) × (r.0.gate.completed_once ≡ false))
      ⊎ ((r.1 ≡ completes o g ∷ []) × (r.0.gate.completed_once ≡ true))
unfolding new_gate
gate_completes_once o g t calls =
    ground (arith, run-own (new_gate o g t) calls, run-once (new_gate o g t) calls)

-- From `k` running tasks on, the calls leave at least one running, and at most 2 ^ 31 - 1 of them.
abbrev pub StaysRunning : ℕ → List GateCall → Type 0
StaysRunning k [] = Unit
StaysRunning k (adds_task ∷ calls) = (suc k < half_word32) × StaysRunning (suc k) calls
StaysRunning k (ends_task ∷ calls) = (1 < k) × StaysRunning (k - 1) calls
StaysRunning k (completes_now ∷ calls) = StaysRunning k calls

-- How many tasks are running behind the calls.
abbrev pub running_after : ℕ → List GateCall → ℕ
running_after k [] = k
running_after k (adds_task ∷ calls) = running_after (suc k) calls
running_after k (ends_task ∷ calls) = running_after (k - 1) calls
running_after k (completes_now ∷ calls) = running_after k calls

-- A gate that is not completed, with its running tasks.
record IsOpen (o g k : ℕ) (s : Gated) : Type 0 where
  unset : s.gate.completed_once ≡ false
  tasks : s.gate.remaining_tasks ≡ k
  offset : s.gate.offset ≡ o
  generation : s.gate.generation_id ≡ g

add-IsOpen :
    (o g k : ℕ) (s : Gated)
    → IsOpen o g k s
    → suc k < half_word32
    → ((gate_step s adds_task).1 ≡ []) × IsOpen o g (suc k) (gate_step s adds_task).0
unfolding gate_step add_task
add-IsOpen o g k s open_gate room = (
  refl,
  record {
    unset = open_gate.unset;
    tasks = ground (arith, open_gate.tasks);
    offset = open_gate.offset;
    generation = open_gate.generation;
  },
)

end-IsOpen :
    (o g k : ℕ) (s : Gated)
    → IsOpen o g k s
    → 1 < k
    → k < half_word32
    → ((gate_step s ends_task).1 ≡ []) × IsOpen o g (k - 1) (gate_step s ends_task).0
unfolding gate_step
end-IsOpen o g k s open_gate more room =
    let is : ((gate_step s ends_task).1 ≡ [])
        × ((gate_step s ends_task).0.gate.completed_once ≡ false)
        × ((gate_step s ends_task).0.gate.remaining_tasks ≡ k - 1)
        × ((gate_step s ends_task).0.gate.offset ≡ s.gate.offset)
        × ((gate_step s ends_task).0.gate.generation_id ≡ s.gate.generation_id) =
      ground (arith, open_gate.unset, open_gate.tasks) in
    (
      is.0,
      record {
        unset = is.1;
        tasks = is.2;
        offset = is.3 ∙ open_gate.offset;
        generation = is.4 ∙ open_gate.generation;
      },
    )

skip-IsOpen : (o g k : ℕ) (s : Gated) → IsOpen o g k s → 0 < k → gate_step s completes_now ≡ (s, [])
unfolding gate_step
skip-IsOpen o g k s open_gate some = ground (arith, open_gate.tasks)

-- While tasks are running, nothing is completed, and what follows finds the gate open.
running-IsOpen :
    (o g k : ℕ) (s : Gated) (calls rest : List GateCall)
    → IsOpen o g k s
    → 0 < k
    → k < half_word32
    → StaysRunning k calls
    → (s' : Gated) × ((gate_run s (calls ++ rest)).1 ≡ (gate_run s' rest).1)
      × IsOpen o g (running_after k calls) s'
unfolding gate_run
running-IsOpen o g k s [] rest open_gate some room running = (s, refl, open_gate)
running-IsOpen o g k s (adds_task ∷ calls) rest open_gate some room running =
    let (quiet, next) = add-IsOpen o g k s open_gate running.0 in
    let (s', same, last) =
      running-IsOpen o g (suc k) (gate_step s adds_task).0 calls rest next (omega arith) running.0
        running.1 in
    (
      s',
      ap (λ made. made ++ (gate_run (gate_step s adds_task).0 (calls ++ rest)).1) quiet ∙ same,
      last,
    )
running-IsOpen o g k s (ends_task ∷ calls) rest open_gate some room running =
    let (quiet, next) = end-IsOpen o g k s open_gate running.0 room in
    let (s', same, last) =
      running-IsOpen o g (k - 1) (gate_step s ends_task).0 calls rest next
        (omega (arith, running.0)) (omega arith) running.1 in
    (
      s',
      ap (λ made. made ++ (gate_run (gate_step s ends_task).0 (calls ++ rest)).1) quiet ∙ same,
      last,
    )
running-IsOpen o g k s (completes_now ∷ calls) rest open_gate some room running =
    let (s', same, last) = running-IsOpen o g k s calls rest open_gate some room running in
    (
      s',
      ap (λ p. p.1 ++ (gate_run p.0 (calls ++ rest)).1) (skip-IsOpen o g k s open_gate some) ∙ same,
      last,
    )

running-range :
    (k : ℕ) (calls : List GateCall)
    → 0 < k
    → k < half_word32
    → StaysRunning k calls
    → (0 < running_after k calls) × (running_after k calls < half_word32)
running-range k [] some room running = (some, room)
running-range k (adds_task ∷ calls) some room running =
    running-range (suc k) calls (omega arith) running.0 running.1
running-range k (ends_task ∷ calls) some room running =
    running-range (k - 1) calls (omega (arith, running.0)) (omega arith) running.1
running-range k (completes_now ∷ calls) some room running = running-range k calls some room running

-- The next end completes the gate if it is the last one.
next_end :
    (o g k : ℕ) (s : Gated)
    → IsOpen o g k s
    → 0 < k
    → k < half_word32
    → (gate_run s (ends_task ∷ [])).1 ≡ (if k == 1 then completes o g ∷ [] else [])
unfolding gate_run gate_step
next_end o g k s open_gate some room =
    ground (arith, open_gate.unset, open_gate.tasks, open_gate.offset, open_gate.generation)

-- A message adds an async task, and then tasks are added and end, and the handler returns, in any
-- order that leaves at least one task running and fewer than 2 ^ 31. Then the committer's
-- `Complete` has not been called, and when a task ends next it is called, once, if that one is the
-- last, and not at all otherwise.
pub last_task_completes :
    (o g : ℕ) (t : Tracker) (calls : List GateCall)
    → StaysRunning 1 calls
    → ((gate_run (new_gate o g t) (adds_task ∷ calls)).1 ≡ [])
      × ((gate_run (new_gate o g t) (adds_task ∷ (calls ++ ends_task ∷ []))).1
          ≡ (if running_after 1 calls == 1 then completes o g ∷ [] else []))
unfolding new_gate gate_run gate_step
last_task_completes o g t calls running =
    let first =
      (add-IsOpen o g 0 (new_gate o g t)
        (record { unset = refl; tasks = refl; offset = refl; generation = refl })
        (omega arith)).1 in
    let added = (gate_step (new_gate o g t) adds_task).0 in
    let (some, room) = running-range 1 calls (omega arith) (omega arith) running in
    let (s, same, last) =
      running-IsOpen o g 1 added calls (ends_task ∷ []) first (omega arith) (omega arith) running in
    let (s', same', last') =
      running-IsOpen o g 1 added calls [] first (omega arith) (omega arith) running in
    (
      ap (λ cs. (gate_run added cs).1) (sym (append-nil calls)) ∙ same',
      same ∙ next_end o g (running_after 1 calls) s last some room,
    )
