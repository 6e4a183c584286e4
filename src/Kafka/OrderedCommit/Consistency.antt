-- ===== src/Kafka/OrderedCommit/Consistency.antt =====
-- The states of a committer of eventbus/kafka/ordered_commit.go stay consistent, piece by piece of
-- `Register`, `Complete` and `AbortGeneration`.
use mathlib.Core.List.{[]}
use analytics_core.Prelude.{
  ℕ, zero, suc, ◌%◌, ◌<◌, ◌≡◌, ◌∙◌, ◌⊎◌, refl, true, false, Option, none, some, arith, length, word,
  ◌==◌, if◌then◌else◌, Bool-cases, Option-cases, lookup, delete, Unique, weight, lookup-insert,
  lookup-delete, insert-Unique, delete-Unique, weight-insert, weight-delete, length-delete-lt,
  nat_eq, inl, inr,
}
use analytics_core.Kafka.OrderedCommit
use analytics_core.Kafka.OrderedCommit.{
  CommitState, Committer, Call, registers, completes, aborts, observes, new_committer, register,
  add_state, track_gap, seed, drop_stale_generation, register_once, set_done, advance, flush,
  flush_all, reset_if_empty, complete_state, complete, abort_generation, record_high_water_mark,
  step, run,
}

abbrev pub done_weight : CommitState → ℕ
done_weight s = if s.done then 1 else 0

abbrev pub fresh : ℕ → Option ℕ → CommitState
fresh g m = record { done = false; generation_id = g; mark_fn = m }

-- What holds at every moment under the lock: one state to an offset, states of the active
-- generation only, and a count of the completed ones that is exact up to the width of an int.
pub record IsConsistent (c : Committer) : Type 0 where
  pub unique : Unique c.states
  pub idle : c.initialized ≡ false → c.states ≡ []
  pub current :
      (o : ℕ) (s : CommitState) → lookup o c.states ≡ some s → s.generation_id ≡ c.generation_id
  pub counted : c.done_count ≡ weight done_weight c.states % word

-- The earliest offset that blocks is not completed.
abbrev pub IsSettled : Committer → Type 0
IsSettled c = (s : CommitState) → lookup c.next_offset c.states ≡ some s → s.done ≡ false

pub advance-IsConsistent :
    (c : Committer) (s : CommitState)
    → IsConsistent c
    → lookup c.next_offset c.states ≡ some s
    → s.done ≡ true
    → IsConsistent (advance c)
unfolding advance
advance-IsConsistent c s h found done = record {
  unique = delete-Unique c.next_offset c.states h.unique;
  idle = λ e. rw (h.idle e) (unfold delete in refl);
  current = λ o t at. ground (arith, lookup-delete c.next_offset o c.states, h.current o t);
  counted = ground (arith, h.counted, weight-delete done_weight c.next_offset c.states h.unique);
}

pub flush-IsConsistent : (f : ℕ) (c : Committer) → IsConsistent c → IsConsistent (flush f c).0
unfolding flush
flush-IsConsistent zero c h = h
flush-IsConsistent (suc f) c h = elim (Option-cases (lookup c.next_offset c.states)) [
  | inl absent ↦ rw (absent, flush) h
  | inr (s, found) ↦ elim (Bool-cases s.done) [
    | inl done ↦
        rw (found, flush)
          (rw done (flush-IsConsistent f (advance c) (advance-IsConsistent c s h found done)))
    | inr pending ↦ rw (found, flush) (rw pending h)
  ]
]

-- Enough fuel: the loop ends by its own test, at an offset that is absent or not completed.
pub flush-IsSettled : (f : ℕ) (c : Committer) → length c.states < f → IsSettled (flush f c).0
unfolding flush
flush-IsSettled zero c h = absurd (omega arith)
flush-IsSettled (suc f) c h = elim (Option-cases (lookup c.next_offset c.states)) [
  | inl absent ↦ rw (absent, flush) (λ s at. cc)
  | inr (s, found) ↦ elim (Bool-cases s.done) [
    | inl done ↦
        rw (found, flush)
          (rw done (
            flush-IsSettled f (advance c)
              (unfold advance in omega (arith, length-delete-lt c.next_offset c.states s found))))
    | inr pending ↦ rw (found, flush) (rw pending (λ t at. cc))
  ]
]

pub reset-IsConsistent : (c : Committer) → IsConsistent (OrderedCommit.reset c)
unfolding OrderedCommit.reset lookup
reset-IsConsistent c = record {
  unique = tt;
  idle = λ e. refl;
  current = λ o s at. cc;
  counted = refl;
}

-- The diagnostics of `Register` leave the rest of the state alone.
pub track_gap_same :
    (o : ℕ) (c : Committer)
    → ((track_gap o c).states ≡ c.states)
      × ((track_gap o c).generation_id ≡ c.generation_id)
      × ((track_gap o c).initialized ≡ c.initialized)
      × ((track_gap o c).done_count ≡ c.done_count)
      × ((track_gap o c).next_offset ≡ c.next_offset)
unfolding track_gap
track_gap_same o c = ground arith

add_state-IsConsistent :
    (o g : ℕ) (m : Option ℕ) (c : Committer)
    → IsConsistent c
    → lookup o c.states ≡ none
    → c.initialized ≡ true
    → c.generation_id ≡ g
    → IsConsistent (add_state o g m c)
unfolding add_state
add_state-IsConsistent o g m c h absent i e = record {
  unique = insert-Unique o _ c.states h.unique;
  idle = λ e. cc;
  current = λ j s at. ground (arith, lookup-insert o j (fresh g m) c.states, h.current j s);
  counted = ground (arith, h.counted, weight-insert done_weight o (fresh g m) c.states);
}

IsConsistent-track_gap : (o : ℕ) (c : Committer) → IsConsistent c → IsConsistent (track_gap o c)
IsConsistent-track_gap o c h =
    let (states, generation, initialized, count, _) = track_gap_same o c in
    record {
      unique = rw states h.unique;
      idle = rw (states, initialized) h.idle;
      current = rw (states, generation) h.current;
      counted = rw (states, count) h.counted;
    }

register_once-IsConsistent :
    (o g : ℕ) (m : Option ℕ) (c : Committer)
    → IsConsistent c
    → c.initialized ≡ true
    → c.generation_id ≡ g
    → IsConsistent (register_once o g m c)
unfolding register_once
register_once-IsConsistent o g m c h i e = elim (Option-cases (lookup o c.states)) [
  | inr (s, found) ↦ rw (found, register_once) h
  | inl absent ↦
      let (states, generation, initialized, _, _) = track_gap_same o c in
      rw (absent, register_once)
        (add_state-IsConsistent o g m (track_gap o c) (IsConsistent-track_gap o c h)
          (rw states absent) (initialized ∙ i) (generation ∙ e))
]

pub seed_old : (o g : ℕ) (c : Committer) → c.initialized ≡ true → seed o g c ≡ c
unfolding seed
seed_old o g c h = ground arith

abbrev pub seeded : ℕ → ℕ → Committer → Committer
seeded o g c = record c {
  initialized = true;
  generation_id = g;
  next_offset = o;
  last_registered_offset = o;
}

pub seed_new : (o g : ℕ) (c : Committer) → c.initialized ≡ false → seed o g c ≡ seeded o g c
unfolding seed
seed_new o g c h = ground arith

seeded-IsConsistent :
    (o g : ℕ) (c : Committer) → IsConsistent c → c.states ≡ [] → IsConsistent (seeded o g c)
unfolding lookup
seeded-IsConsistent o g c h empty = record {
  unique = h.unique;
  idle = λ e. cc;
  current = λ j s at. cc empty;
  counted = h.counted;
}

pub seed-IsConsistent :
    (o g : ℕ) (c : Committer)
    → IsConsistent c
    → (c.initialized ≡ true → c.generation_id ≡ g)
    → IsConsistent (seed o g c)
      × ((seed o g c).initialized ≡ true)
      × ((seed o g c).generation_id ≡ g)
seed-IsConsistent o g c h same = elim (Bool-cases c.initialized) [
  | inl old ↦ rw (seed_old o g c old) (h, old, same old)
  | inr new ↦ rw (seed_new o g c new) (seeded-IsConsistent o g c h (h.idle new), refl, refl)
]

-- Either nothing is dropped, and a committer at work is at work for `g`, or all is.
pub drop_stale_cases :
    (g : ℕ) (c : Committer)
    → ((drop_stale_generation g c ≡ c) × (c.initialized ≡ true → c.generation_id ≡ g))
      ⊎ (drop_stale_generation g c ≡ OrderedCommit.reset c)
unfolding drop_stale_generation
drop_stale_cases g c = ground arith

pub drop_stale-IsConsistent :
    (g : ℕ) (c : Committer)
    → IsConsistent c
    → IsConsistent (drop_stale_generation g c)
      × ((drop_stale_generation g c).initialized ≡ true
          → (drop_stale_generation g c).generation_id ≡ g)
drop_stale-IsConsistent g c h = elim (drop_stale_cases g c) [
  | inl (e, keep) ↦ rw e (h, keep)
  | inr e ↦ rw e (reset-IsConsistent c, unfold OrderedCommit.reset in (λ i. cc))
]

pub register-IsConsistent :
    (o g : ℕ) (m : Option ℕ) (c : Committer) → IsConsistent c → IsConsistent (register o g m c)
unfolding register
register-IsConsistent o g m c h =
    let (h₁, same) = drop_stale-IsConsistent g c h in
    let (h₂, started, active) = seed-IsConsistent o g (drop_stale_generation g c) h₁ same in
    register_once-IsConsistent o g m (seed o g (drop_stale_generation g c)) h₂ started active

pub set_done-IsConsistent :
    (o : ℕ) (s : CommitState) (c : Committer)
    → IsConsistent c
    → lookup o c.states ≡ some s
    → IsConsistent (set_done o s c)
unfolding set_done
set_done-IsConsistent o s c h found = elim (Bool-cases s.done) [
  | inl done ↦ rw done h
  | inr pending ↦ rw pending (record {
    unique = insert-Unique o _ c.states h.unique;
    idle = λ e. absurd (unfold lookup in cc (h.idle e));
    current = λ j t at. ground (
      arith,
      lookup-insert o j (record s { done = true }) c.states,
      h.current j t,
      h.current o s,
    );
    counted =
        ground (arith, h.counted, weight-insert done_weight o (record s { done = true }) c.states);
  })
]

pub reset_if_empty-IsConsistent : (c : Committer) → IsConsistent c → IsConsistent (reset_if_empty c)
unfolding reset_if_empty
reset_if_empty-IsConsistent c h = elim (Bool-cases (length c.states == 0)) [
  | inl empty ↦ rw empty (reset-IsConsistent c)
  | inr left ↦ rw left h
]
