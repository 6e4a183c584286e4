-- ===== src/Kafka/OrderedCommit/Invariant.antt =====
-- What holds of a committer of eventbus/kafka/ordered_commit.go between two calls.
use analytics_core.Prelude.{
  ℕ, suc, ◌≡◌, refl, not, ◌||◌, Option, some, List, [], ◌∷◌, ◌==◌, arith, length, Bool-cases,
  Option-cases, lookup, lookup-insert, nat_eq, inl, inr,
}
use analytics_core.Kafka.OrderedCommit
use analytics_core.Kafka.OrderedCommit.{
  CommitState, Committer, Call, registers, completes, aborts, observes, new_committer, register,
  add_state, track_gap, seed, drop_stale_generation, register_once, set_done, flush, flush_all,
  reset_if_empty, complete_state, complete, abort_generation, record_high_water_mark, step, run,
}
use analytics_core.Kafka.OrderedCommit.Consistency.{
  IsConsistent, IsSettled, fresh, reset-IsConsistent, flush-IsConsistent, flush-IsSettled,
  register-IsConsistent, set_done-IsConsistent, track_gap_same, drop_stale_cases,
  drop_stale-IsConsistent, seed_old, seed_new,
}

pub record IsWellFormed (c : Committer) : Type 0 where
  pub consistent : IsConsistent c
  pub settled : IsSettled c

reset-IsWellFormed : (c : Committer) → IsWellFormed (OrderedCommit.reset c)
unfolding OrderedCommit.reset lookup
reset-IsWellFormed c = record { consistent = reset-IsConsistent c; settled = λ s at. cc }

drop_stale-IsSettled : (g : ℕ) (c : Committer) → IsSettled c → IsSettled (drop_stale_generation g c)
unfolding OrderedCommit.reset lookup
drop_stale-IsSettled g c h = elim (drop_stale_cases g c) [
  | inl (e, _) ↦ rw e h
  | inr e ↦ rw e (λ s at. cc)
]

seed-IsSettled : (o g : ℕ) (c : Committer) → IsConsistent c → IsSettled c → IsSettled (seed o g c)
unfolding lookup
seed-IsSettled o g c h settled = elim (Bool-cases c.initialized) [
  | inl old ↦ rw (seed_old o g c old) settled
  | inr new ↦ rw (seed_new o g c new) (λ s at. cc (h.idle new))
]

add_state-IsSettled :
    (o g : ℕ) (m : Option ℕ) (c : Committer) → IsSettled c → IsSettled (add_state o g m c)
unfolding add_state
add_state-IsSettled o g m c h s at =
    ground (arith, lookup-insert o c.next_offset (fresh g m) c.states, h s)

track_gap-IsSettled : (o : ℕ) (c : Committer) → IsSettled c → IsSettled (track_gap o c)
track_gap-IsSettled o c h = let (states, _, _, _, next) = track_gap_same o c in rw (states, next) h

register_once-IsSettled :
    (o g : ℕ) (m : Option ℕ) (c : Committer) → IsSettled c → IsSettled (register_once o g m c)
unfolding register_once
register_once-IsSettled o g m c h = elim (Option-cases (lookup o c.states)) [
  | inr (s, found) ↦ rw (found, register_once) h
  | inl absent ↦
      rw (absent, register_once)
        (add_state-IsSettled o g m (track_gap o c) (track_gap-IsSettled o c h))
]

register-IsSettled :
    (o g : ℕ) (m : Option ℕ) (c : Committer) → IsWellFormed c → IsSettled (register o g m c)
unfolding register
register-IsSettled o g m c h =
    register_once-IsSettled o g m (seed o g (drop_stale_generation g c)) (
      seed-IsSettled o g (drop_stale_generation g c) (drop_stale-IsConsistent g c h.consistent).0
        (drop_stale-IsSettled g c h.settled))

reset_if_empty-IsWellFormed :
    (c : Committer) → IsConsistent c → IsSettled c → IsWellFormed (reset_if_empty c)
unfolding reset_if_empty
reset_if_empty-IsWellFormed c h settled = elim (Bool-cases (length c.states == 0)) [
  | inl empty ↦ rw empty (reset-IsWellFormed c)
  | inr left ↦ rw left (record { consistent = h; settled = settled })
]

pub flush_all-IsWellFormed : (c : Committer) → IsConsistent c → IsWellFormed (flush_all c).0
unfolding flush_all
flush_all-IsWellFormed c h =
    reset_if_empty-IsWellFormed (flush (suc (length c.states)) c).0
      (flush-IsConsistent (suc (length c.states)) c h)
      (flush-IsSettled (suc (length c.states)) c (omega arith))

complete_state-IsWellFormed :
    (o g : ℕ) (s : CommitState) (c : Committer)
    → IsWellFormed c
    → lookup o c.states ≡ some s
    → IsWellFormed (complete_state o g s c).0
unfolding complete_state
complete_state-IsWellFormed o g s c h found =
    elim (Bool-cases (not (s.generation_id == g) || not (c.generation_id == g))) [
      | inl stale ↦ rw stale h
      | inr active ↦
          rw active (
            flush_all-IsWellFormed (set_done o s c)
              (set_done-IsConsistent o s c h.consistent found))
    ]

complete-IsWellFormed : (o g : ℕ) (c : Committer) → IsWellFormed c → IsWellFormed (complete o g c).0
unfolding complete
complete-IsWellFormed o g c h = elim (Option-cases (lookup o c.states)) [
  | inl absent ↦ rw (absent, complete) h
  | inr (s, found) ↦ rw (found, complete) (complete_state-IsWellFormed o g s c h found)
]

abort-IsWellFormed : (g : ℕ) (c : Committer) → IsWellFormed c → IsWellFormed (abort_generation g c)
unfolding abort_generation
abort-IsWellFormed g c h = elim (Bool-cases (not c.initialized || not (c.generation_id == g))) [
  | inl other ↦ rw other h
  | inr same ↦ rw same (reset-IsWellFormed c)
]

-- The high-water mark is a diagnostic.
pub record_high_water_mark_same :
    (o : ℕ) (c : Committer)
    → record_high_water_mark o c
      ≡ record c { high_water_mark_offset = (record_high_water_mark o c).high_water_mark_offset }
unfolding record_high_water_mark
record_high_water_mark_same o c = ground arith

high_water_mark-IsWellFormed :
    (o : ℕ) (c : Committer) → IsWellFormed c → IsWellFormed (record_high_water_mark o c)
high_water_mark-IsWellFormed o c h = rw record_high_water_mark_same (record {
  consistent = record {
    unique = h.consistent.unique;
    idle = h.consistent.idle;
    current = h.consistent.current;
    counted = h.consistent.counted;
  };
  settled = h.settled;
})

-- Every call of `Register`, `Complete`, `AbortGeneration` or `RecordHighWaterMark`, on every branch
-- and for every generation, keeps a well-formed committer well formed.
pub step-IsWellFormed :
    (c : Committer) (call : Call) → IsWellFormed c → IsWellFormed (step c call).0
unfolding step
step-IsWellFormed c (registers o g m) h = record {
  consistent = register-IsConsistent o g m c h.consistent;
  settled = register-IsSettled o g m c h;
}
step-IsWellFormed c (completes o g) h = complete-IsWellFormed o g c h
step-IsWellFormed c (aborts g) h = abort-IsWellFormed g c h
step-IsWellFormed c (observes o) h = high_water_mark-IsWellFormed o c h

new-IsWellFormed : IsWellFormed new_committer
unfolding new_committer lookup
new-IsWellFormed = record {
  consistent = record { unique = tt; idle = λ e. refl; current = λ o s at. cc; counted = refl };
  settled = λ s at. cc;
}

run_keeps : (c : Committer) (calls : List Call) → IsWellFormed c → IsWellFormed (run c calls).0
unfolding run
run_keeps c [] h = h
run_keeps c (call ∷ calls) h = run_keeps (step c call).0 calls (step-IsWellFormed c call h)

-- After any calls at all, from a new committer: each offset has one state, which carries the
-- active generation; an idle committer has none; the count of the completed is exact up to the
-- width of an int; and the offset that `nextOffset` waits for is not completed.
pub run-IsWellFormed : (calls : List Call) → IsWellFormed (run new_committer calls).0
run-IsWellFormed calls = run_keeps new_committer calls new-IsWellFormed
