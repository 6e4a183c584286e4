-- ===== src/Kafka/OrderedCommit.antt =====
-- eventbus/kafka/ordered_commit.go: one topic-partition's offsets are marked in order.
pub mod Consistency
pub mod Invariant
pub mod Marks
pub mod History
pub mod Stall
pub mod Draining
pub mod Registering
pub mod Liveness
use analytics_core.Prelude.{
  ℕ, zero, suc, Bool, true, false, not, ◌&&◌, ◌||◌, Option, none, some, List, [], ◌∷◌, ◌++◌, ◌==◌,
  ltb, length, if◌then◌else◌, add64, sub64, lt64, Dict, lookup, insert, delete, nat_eq,
}

-- `markFn` is nil or a closure that marks one message: the offset of that message.
pub record CommitState : Type 0 where
  pub done : Bool
  pub generation_id : ℕ
  pub mark_fn : Option ℕ

pub record Committer : Type 0 where
  pub initialized : Bool
  pub generation_id : ℕ
  pub next_offset : ℕ
  pub high_water_mark_offset : ℕ
  pub states : Dict ℕ CommitState
  pub done_count : ℕ
  pub last_registered_offset : ℕ
  pub largest_register_gap : ℕ

unfoldable pub new_committer : Committer
new_committer = record {
  initialized = false;
  generation_id = 0;
  next_offset = 0;
  high_water_mark_offset = 0;
  states = [];
  done_count = 0;
  last_registered_offset = 0;
  largest_register_gap = 0;
}

-- `resetLocked`
pub reset : Committer → Committer
reset c = record {
  initialized = false;
  generation_id = 0;
  next_offset = 0;
  high_water_mark_offset = 0;
  states = [];
  done_count = 0;
  last_registered_offset = 0;
  largest_register_gap = 0;
}

-- The first test of `Register`: a new generation drops what the old one left.
pub drop_stale_generation : ℕ → Committer → Committer
unfolding reset
drop_stale_generation generation_id c =
    if c.initialized && not (c.generation_id == generation_id) then reset c else c

-- The second test: the first offset observed is the lower bound.
pub seed : ℕ → ℕ → Committer → Committer
seed offset generation_id c =
    if not c.initialized
    then record c {
      initialized = true;
      generation_id = generation_id;
      next_offset = offset;
      last_registered_offset = offset;
    }
    else c

-- The diagnostics of the registration order.
pub track_gap : ℕ → Committer → Committer
track_gap offset c =
    let gap = sub64 offset c.last_registered_offset in
    if ltb 0 (length c.states) && lt64 c.last_registered_offset offset
    then record c {
      largest_register_gap =
          (if lt64 c.largest_register_gap gap then gap else c.largest_register_gap);
      last_registered_offset = offset;
    }
    else c

pub add_state : ℕ → ℕ → Option ℕ → Committer → Committer
add_state offset generation_id mark_fn c =
    let fresh : CommitState = record {
      done = false;
      generation_id = generation_id;
      mark_fn = mark_fn;
    } in
    record c { states = insert offset fresh c.states }

-- The part of `Register` behind the two tests.
pub register_once : ℕ → ℕ → Option ℕ → Committer → Committer
unfolding track_gap add_state
register_once offset generation_id mark_fn c = elim (lookup offset c.states) [
  | some _ ↦ c
  | none ↦ add_state offset generation_id mark_fn (track_gap offset c)
]

unfoldable pub register : ℕ → ℕ → Option ℕ → Committer → Committer
unfolding drop_stale_generation seed register_once
register offset generation_id mark_fn c =
    register_once offset generation_id mark_fn
      (seed offset generation_id (drop_stale_generation generation_id c))

-- `if !state.done { … }`
pub set_done : ℕ → CommitState → Committer → Committer
set_done offset state c =
    if not state.done
    then record c {
      states = insert offset (record state { done = true }) c.states;
      done_count = add64 c.done_count 1;
    }
    else c

-- The call of a mark function that may be nil, before the marks that follow it.
abbrev pub call_mark : Option ℕ → List ℕ → List ℕ
call_mark none marks = marks
call_mark (some offset) marks = offset ∷ marks

pub advance : Committer → Committer
advance c = record c {
  states = delete c.next_offset c.states;
  done_count = sub64 c.done_count 1;
  next_offset = add64 c.next_offset 1;
}

-- The loop of `Complete`, on fuel; the marks come in the order of the calls.
unfoldable pub flush : ℕ → Committer → Committer × List ℕ
unfolding advance
flush zero c = (c, [])
flush (suc fuel) c = elim (lookup c.next_offset c.states) [
  | none ↦ (c, [])
  | some current ↦
      let (c', marks) = flush fuel (advance c) in
      if current.done then (c', call_mark current.mark_fn marks) else (c, [])
]

pub reset_if_empty : Committer → Committer
unfolding reset
reset_if_empty c = if length c.states == 0 then reset c else c

-- Each round of the loop deletes an offset, so one more than their number is fuel enough.
pub flush_all : Committer → Committer × List ℕ
unfolding flush reset_if_empty
flush_all c = let (c', marks) = flush (suc (length c.states)) c in (reset_if_empty c', marks)

pub complete_state : ℕ → ℕ → CommitState → Committer → Committer × List ℕ
unfolding set_done flush_all
complete_state offset generation_id state c =
    if not (state.generation_id == generation_id) || not (c.generation_id == generation_id)
    then (c, [])
    else flush_all (set_done offset state c)

-- `Complete`, with the marks that it calls.
unfoldable pub complete : ℕ → ℕ → Committer → Committer × List ℕ
unfolding complete_state
complete offset generation_id c = elim (lookup offset c.states) [
  | none ↦ (c, [])
  | some state ↦ complete_state offset generation_id state c
]

unfoldable pub abort_generation : ℕ → Committer → Committer
unfolding reset
abort_generation generation_id c =
    if not c.initialized || not (c.generation_id == generation_id) then c else reset c

unfoldable pub record_high_water_mark : ℕ → Committer → Committer
record_high_water_mark offset c =
    if lt64 c.high_water_mark_offset offset then record c { high_water_mark_offset = offset } else c

pub record Snapshot : Type 0 where
  pub initialized : Bool
  pub next_offset : ℕ
  pub high_water_mark_offset : ℕ
  pub pending_count : ℕ
  pub done_count : ℕ
  pub oldest_pending_offset : ℕ
  pub largest_pending_gap : ℕ

unfoldable pub snapshot : Committer → Snapshot
snapshot c = record {
  initialized = c.initialized;
  next_offset = c.next_offset;
  high_water_mark_offset = c.high_water_mark_offset;
  pending_count = length c.states;
  done_count = c.done_count;
  oldest_pending_offset = (if ltb 0 (length c.states) then c.next_offset else 0);
  largest_pending_gap = c.largest_register_gap;
}

-- The calls that the sessions and the workers make, in the order in which the lock serves them.
pub data Call : Type 0 where
  registers : ℕ → ℕ → Option ℕ → Call
  completes : ℕ → ℕ → Call
  aborts : ℕ → Call
  observes : ℕ → Call

unfoldable pub step : Committer → Call → Committer × List ℕ
unfolding register complete abort_generation record_high_water_mark
step c (registers offset generation_id mark_fn) = (register offset generation_id mark_fn c, [])
step c (completes offset generation_id) = complete offset generation_id c
step c (aborts generation_id) = (abort_generation generation_id c, [])
step c (observes offset) = (record_high_water_mark offset c, [])

unfoldable pub run : Committer → List Call → Committer × List ℕ
unfolding step
run c [] = (c, [])
run c (call ∷ calls) =
    let (c', marks) = step c call in let (c'', more) = run c' calls in (c'', marks ++ more)
