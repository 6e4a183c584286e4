-- ===== src/Kafka/OrderedCommit/Stall.antt =====
-- eventbus/kafka/ordered_commit.go over offsets that are not contiguous, as after log compaction or
-- around transaction markers: the loop of `Complete` waits for the next number.
use analytics_core.Prelude.{
  ℕ, ◌≡◌, ◌≢◌, ◌∙◌, refl, true, false, Option, none, some, List, [], ◌∷◌, ◌==◌, arith, length, All,
  Bool-cases, Option-cases, lookup, insert, lookup-insert, nat_eq, inl, inr,
}
use analytics_core.Kafka.OrderedCommit
use analytics_core.Kafka.OrderedCommit.{
  CommitState, Committer, Call, registers, completes, aborts, observes, register, add_state,
  track_gap, seed, drop_stale_generation, register_once, set_done, flush, flush_all, reset_if_empty,
  complete_state, complete, abort_generation, record_high_water_mark, step, run,
}
use analytics_core.Kafka.OrderedCommit.Consistency.{fresh, track_gap_same, seed_old}
use analytics_core.Kafka.OrderedCommit.Invariant.{record_high_water_mark_same}
use analytics_core.Kafka.OrderedCommit.Marks.{complete_cases}

-- At work for the generation `g`, with `gap` the next offset to mark: it has no state, and some
-- other offset has one.
pub record IsStalled (g gap : ℕ) (c : Committer) : Type 0 where
  pub started : c.initialized ≡ true
  pub active : c.generation_id ≡ g
  pub waits : c.next_offset ≡ gap
  pub absent : lookup gap c.states ≡ none
  pub pending : c.states ≢ []

-- The calls of a session that never fetches the offset `gap`, and is not closed.
abbrev pub Avoids : ℕ → ℕ → Call → Type 0
Avoids g gap (registers o g' m) = (g' ≡ g) × (o ≢ gap)
Avoids g gap (completes o g') = Unit
Avoids g gap (aborts g') = g' ≢ g
Avoids g gap (observes o) = Unit

insert-ne-nil :
    (o : ℕ) (s : CommitState) (states : OrderedCommit.Dict ℕ CommitState) → insert o s states ≢ []
unfolding insert
insert-ne-nil o s [] e = cc
insert-ne-nil o s ((j, t) ∷ states) e = ground arith

pub drop_stale_same : (g : ℕ) (c : Committer) → c.generation_id ≡ g → drop_stale_generation g c ≡ c
unfolding drop_stale_generation
drop_stale_same g c h = ground arith

module _ (g gap : ℕ) (c : Committer) (h : IsStalled g gap c) where
  add-IsStalled :
      (o : ℕ) (m : Option ℕ) (d : Committer)
      → IsStalled g gap d
      → o ≢ gap
      → IsStalled g gap (add_state o g m d)
  unfolding add_state
  add-IsStalled o m d k ne = record {
    started = k.started;
    active = k.active;
    waits = k.waits;
    absent = ground (arith, lookup-insert o gap (fresh g m) d.states, k.absent);
    pending = insert-ne-nil o (fresh g m) d.states;
  }

  track_gap-IsStalled : (o : ℕ) → IsStalled g gap (track_gap o c)
  track_gap-IsStalled o =
      let (states, generation, initialized, _, next) = track_gap_same o c in
      record {
        started = initialized ∙ h.started;
        active = generation ∙ h.active;
        waits = next ∙ h.waits;
        absent = rw states h.absent;
        pending = rw states h.pending;
      }

  register-IsStalled : (o : ℕ) (m : Option ℕ) → o ≢ gap → IsStalled g gap (register o g m c)
  unfolding register register_once
  register-IsStalled o m ne = rw (drop_stale_same g c h.active) (
      rw (seed_old o g c h.started) (elim (Option-cases (lookup o c.states)) [
        | inr (s, found) ↦ rw (found, register_once) h
        | inl absent ↦
            rw (absent, register_once)
              (add-IsStalled o m (track_gap o c) (track_gap-IsStalled o) ne)
      ]))

  set_done-IsStalled :
      (o : ℕ) (s : CommitState) → lookup o c.states ≡ some s → IsStalled g gap (set_done o s c)
  unfolding set_done
  set_done-IsStalled o s found = elim (Bool-cases s.done) [
    | inl done ↦ rw done h
    | inr pending ↦ rw pending (record {
      started = h.started;
      active = h.active;
      waits = h.waits;
      absent =
          ground (arith, lookup-insert o gap (record s { done = true }) c.states, h.absent, found);
      pending = insert-ne-nil o (record s { done = true }) c.states;
    })
  ]

length-ne-nil : {A : Type 0} (xs : List A) → xs ≢ [] → (length xs == 0) ≡ false
length-ne-nil [] h = absurd (h refl)
length-ne-nil (x ∷ xs) h = ground arith

flush_all-stalled : (g gap : ℕ) (c : Committer) → IsStalled g gap c → flush_all c ≡ (c, [])
unfolding flush_all flush reset_if_empty
flush_all-stalled g gap c h =
    let absent : lookup c.next_offset c.states ≡ none = rw h.waits h.absent in
    rw (absent, flush) (rw (length-ne-nil c.states h.pending, reset_if_empty) refl)

-- One call leaves the committer stalled and marks nothing.
abbrev Stays : ℕ → ℕ → Committer × List ℕ → Type 0
Stays g gap r = IsStalled g gap r.0 × (r.1 ≡ [])

complete-stalled :
    (g gap o g' : ℕ) (c : Committer) → IsStalled g gap c → Stays g gap (complete o g' c)
complete-stalled g gap o g' c h = elim (complete_cases o g' c) [
  | inl nothing ↦ rw nothing (h, refl)
  | inr (s, found, flushed) ↦
      let k = set_done-IsStalled g gap c h o s found in
      rw flushed (rw (flush_all-stalled g gap (set_done o s c) k) (k, refl))
]

abort_other : (g : ℕ) (c : Committer) → c.generation_id ≢ g → abort_generation g c ≡ c
unfolding abort_generation
abort_other g c h = ground arith

step-stalled :
    (g gap : ℕ) (c : Committer) (call : Call)
    → IsStalled g gap c
    → Avoids g gap call
    → Stays g gap (step c call)
unfolding step
step-stalled g gap c (registers o g' m) h avoids =
    rw avoids.0 (register-IsStalled g gap c h o m avoids.1, refl)
step-stalled g gap c (completes o g') h avoids = complete-stalled g gap o g' c h
step-stalled g gap c (aborts g') h avoids =
    rw (abort_other g' c (λ e. avoids (cc (h.active)))) (h, refl)
step-stalled g gap c (observes o) h avoids = rw record_high_water_mark_same (
  record {
    started = h.started;
    active = h.active;
    waits = h.waits;
    absent = h.absent;
    pending = h.pending;
  },
  refl,
)

-- A number that the partition never delivers stops all progress: while `nextOffset` stands at such
-- a gap and a later offset is registered, no call of the generation's session marks anything, however
-- many later messages it registers and completes.
pub gap_stalls :
    (g gap : ℕ) (c : Committer) (calls : List Call)
    → IsStalled g gap c
    → All (Avoids g gap) calls
    → (run c calls).1 ≡ []
unfolding run
gap_stalls g gap c [] h avoids = refl
gap_stalls g gap c (call ∷ calls) h avoids =
    let (still, nothing) = step-stalled g gap c call h avoids.0 in
    rw nothing (gap_stalls g gap (step c call).0 calls still avoids.1)
