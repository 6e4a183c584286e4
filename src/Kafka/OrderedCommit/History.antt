-- ===== src/Kafka/OrderedCommit/History.antt =====
-- Runs of eventbus/kafka/ordered_commit.go: what is marked was completed.
use analytics_core.Prelude.{
  ℕ, zero, suc, ◌+◌, ◌<◌, ◌≤◌, ◌≡◌, ◌⊎◌, Option, some, List, [], ◌∷◌, arith, half_word, All,
  All-append, Option-cases, lookup, lookup-insert, nat_eq, inl, inr,
}
use analytics_core.Kafka.OrderedCommit
use analytics_core.Kafka.OrderedCommit.{
  CommitState, Committer, Call, registers, completes, aborts, observes, new_committer, register,
  add_state, track_gap, seed, drop_stale_generation, register_once, complete, abort_generation,
  record_high_water_mark, step, run,
}
use analytics_core.Kafka.OrderedCommit.Consistency.{fresh, track_gap_same, drop_stale_cases}
use analytics_core.Kafka.OrderedCommit.Invariant.{record_high_water_mark_same}
use analytics_core.Kafka.OrderedCommit.Marks.{
  IsFaithful, IsDone, IsDone-some, complete-Outcome, consecutive,
}

drop_stale-kept :
    (g : ℕ) (c : Committer) (j : ℕ) (s : CommitState)
    → lookup j (drop_stale_generation g c).states ≡ some s
    → lookup j c.states ≡ some s
unfolding OrderedCommit.reset lookup
drop_stale-kept g c j s = elim (drop_stale_cases g c) [
  | inl (e, _) ↦ rw e (λ at. at)
  | inr e ↦ rw e (λ at. cc)
]

states-seed : (o g : ℕ) (c : Committer) → (seed o g c).states ≡ c.states
unfolding seed
states-seed o g c = ground arith

register_once-kept :
    (o g : ℕ) (m : Option ℕ) (c : Committer) (j : ℕ) (s : CommitState)
    → lookup j (register_once o g m c).states ≡ some s
    → (lookup j c.states ≡ some s) ⊎ ((j ≡ o) × (s ≡ fresh g m))
unfolding register_once add_state
register_once-kept o g m c j s = elim (Option-cases (lookup o c.states)) [
  | inr (t, found) ↦ rw (found, register_once) (λ at. inl at)
  | inl absent ↦
      rw (absent, register_once)
        (λ at.
          ground
            (arith, lookup-insert o j (fresh g m) (track_gap o c).states, (track_gap_same o c).0))
]

-- After `Register` a state is one of before, or the new one.
pub register-kept :
    (o g : ℕ) (m : Option ℕ) (c : Committer) (j : ℕ) (s : CommitState)
    → lookup j (register o g m c).states ≡ some s
    → (lookup j c.states ≡ some s) ⊎ ((j ≡ o) × (s ≡ fresh g m))
unfolding register
register-kept o g m c j s at =
    elim (register_once-kept o g m (seed o g (drop_stale_generation g c)) j s at) [
      | inr new ↦ inr new
      | inl old ↦ inl (drop_stale-kept g c j s (rw states-seed at old))
    ]

abort-kept :
    (g : ℕ) (c : Committer) (j : ℕ) (s : CommitState)
    → lookup j (abort_generation g c).states ≡ some s
    → lookup j c.states ≡ some s
unfolding abort_generation OrderedCommit.reset lookup
abort-kept g c j s at = ground arith

-- A session registers each message with the callback that marks it.
abbrev pub IsProper : Call → Type 0
IsProper (registers o g m) = (m ≡ some o) × (o < half_word)
IsProper (completes o g) = Unit
IsProper (aborts g) = Unit
IsProper (observes o) = Unit

abbrev pub Completes : ℕ → Call → Type 0
Completes o (completes j g) = o ≡ j
Completes o (registers j g m) = ⊥
Completes o (aborts g) = ⊥
Completes o (observes j) = ⊥

-- One of the calls completes the offset.
abbrev pub Completed : ℕ → List Call → Type 0
Completed o [] = ⊥
Completed o (call ∷ calls) = Completes o call ⊎ Completed o calls

-- One call keeps the callbacks faithful, marks only completed offsets, and completes no other.
record Accounts (c : Committer) (call : Call) (r : Committer × List ℕ) : Type 0 where
  faithful : IsFaithful r.0.states
  marked : All (λ o. IsDone c.states o ⊎ Completes o call) r.1
  left : (o : ℕ) → IsDone r.0.states o → IsDone c.states o ⊎ Completes o call

All-ready :
    (P : ℕ → Type 0) (o n : ℕ) → ((j : ℕ) → o ≤ j → j < o + n → P j) → All P (consecutive o n)
All-ready P o zero h = tt
All-ready P o (suc n) h = (
  h o (omega arith) (omega arith),
  All-ready P (suc o) n (λ j a b. h j (omega arith) (omega arith)),
)

swap_sides : {A B : Type 0} → A ⊎ B → B ⊎ A
swap_sides (inl a) = inr a
swap_sides (inr b) = inl b

complete-Accounts :
    (o g : ℕ) (c : Committer) → IsFaithful c.states → Accounts c (completes o g) (complete o g c)
complete-Accounts o g c h =
    let (n, outcome) = complete-Outcome o g c h in
    record {
      faithful = outcome.faithful;
      marked =
          rw outcome.marked
            (All-ready _ c.next_offset n (λ j a b. swap_sides (outcome.ready j a b)));
      left = λ j d. swap_sides (outcome.left j d);
    }

register-Accounts :
    (o g : ℕ) (m : Option ℕ) (c : Committer)
    → IsFaithful c.states
    → m ≡ some o
    → o < half_word
    → Accounts c (registers o g m) (register o g m c, [])
register-Accounts o g m c h e small = record {
  faithful = λ j s at. elim (register-kept o g m c j s at) [
    | inl old ↦ h j s old
    | inr (same, new) ↦ ground (arith, e)
  ];
  marked = tt;
  left = λ j d.
      let (s, at, done) = IsDone-some (register o g m c).states j d in
      elim (register-kept o g m c j s at) [ inl old ↦ inl (rw old done) | inr (same, new) ↦ cc ];
}

step-Accounts :
    (c : Committer) (call : Call)
    → IsFaithful c.states
    → IsProper call
    → Accounts c call (step c call)
unfolding step
step-Accounts c (registers o g m) h proper = register-Accounts o g m c h proper.0 proper.1
step-Accounts c (completes o g) h proper = complete-Accounts o g c h
step-Accounts c (aborts g) h proper = record {
  faithful = λ j s at. h j s (abort-kept g c j s at);
  marked = tt;
  left = λ j d.
      let (s, at, done) = IsDone-some (abort_generation g c).states j d in
      inl (rw (abort-kept g c j s at) done);
}
step-Accounts c (observes o) h proper =
    rw record_high_water_mark_same (record { faithful = h; marked = tt; left = λ j d. inl d })

-- What is completed at the start of the rest was completed before, or by the call in between.
carry :
    (P Q : ℕ → Type 0) (R : ℕ → Type 0) (S : ℕ → Type 0)
    → ((o : ℕ) → P o → Q o ⊎ R o)
    → (os : List ℕ) → All (λ o. P o ⊎ S o) os
    → All (λ o. Q o ⊎ (R o ⊎ S o)) os
carry P Q R S f [] h = tt
carry P Q R S f (o ∷ os) h = (ground (arith, f o), carry P Q R S f os h.1)

weaken-All :
    (Q R S : ℕ → Type 0) (os : List ℕ) → All (λ o. Q o ⊎ R o) os → All (λ o. Q o ⊎ (R o ⊎ S o)) os
weaken-All Q R S [] h = tt
weaken-All Q R S (o ∷ os) h = (ground arith, weaken-All Q R S os h.1)

run-marks :
    (c : Committer) (calls : List Call)
    → IsFaithful c.states
    → All IsProper calls
    → All (λ o. IsDone c.states o ⊎ Completed o calls) (run c calls).1
unfolding run
run-marks c [] h proper = tt
run-marks c (call ∷ calls) h proper =
    let acc = step-Accounts c call h proper.0 in
    All-append _ (step c call).1 (run (step c call).0 calls).1
      (weaken-All (IsDone c.states) (λ o. Completes o call) (λ o. Completed o calls) (step c call).1
        acc.marked)
      (carry (IsDone (step c call).0.states) (IsDone c.states) (λ o. Completes o call)
        (λ o. Completed o calls) acc.left (run (step c call).0 calls).1
        (run-marks (step c call).0 calls acc.faithful proper.1))

only-Completed :
    (os : List ℕ) (calls : List Call)
    → All (λ o. IsDone [] o ⊎ Completed o calls) os
    → All (λ o. Completed o calls) os
unfolding lookup
only-Completed [] calls h = tt
only-Completed (o ∷ os) calls h = (ground arith, only-Completed os calls h.1)

-- At least once: in every run from a new committer, by sessions that register each message with
-- its own callback, whatever the order of the calls and the generations, an offset is marked only
-- if a call of `Complete` for it is in the run.
pub marked_needs_complete :
    (calls : List Call)
    → All IsProper calls
    → All (λ o. Completed o calls) (run new_committer calls).1
unfolding new_committer lookup
marked_needs_complete calls proper =
    only-Completed (run new_committer calls).1 calls
      (run-marks new_committer calls (λ o s at. cc) proper)
