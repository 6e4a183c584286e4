-- ===== src/Kafka/OrderedCommit/Marks.antt =====
-- Which offsets `Complete` of eventbus/kafka/ordered_commit.go marks, and in what order.
use analytics_core.Prelude.{
  ℕ, zero, suc, ◌+◌, ◌<◌, ◌≤◌, ◌≡◌, ◌≢◌, refl, ◌∙◌, ap, Bool, true, false, not, ◌||◌, ◌&&◌, Option,
  none, some, List, [], ◌∷◌, ◌==◌, ltb, leb, arith, length, half_word, All, Bool-cases,
  Option-cases, if◌then◌else◌, lookup, lookup-insert, lookup-delete, Dict, nat_eq, inl, inr, ◌⊎◌,
}
use native.Mathlib.Decide.{dec_le}
use analytics_core.Kafka.OrderedCommit
use analytics_core.Kafka.OrderedCommit.{
  CommitState, Committer, set_done, advance, flush, flush_all, reset_if_empty, complete_state,
  complete,
}

-- Every callback marks its own message, and offsets are not negative, as Kafka's are.
abbrev pub IsFaithful : Dict ℕ CommitState → Type 0
IsFaithful states =
    (o : ℕ) (s : CommitState) → lookup o states ≡ some s → (s.mark_fn ≡ some o) × (o < half_word)

abbrev pub done_of : Option CommitState → Bool
done_of none = false
done_of (some s) = s.done

abbrev pub IsDone : Dict ℕ CommitState → ℕ → Type 0
IsDone states o = done_of (lookup o states) ≡ true

pub IsDone-some :
    (states : Dict ℕ CommitState) (o : ℕ)
    → IsDone states o
    → (s : CommitState) × (lookup o states ≡ some s) × (s.done ≡ true)
IsDone-some states o h = elim (Option-cases (lookup o states)) [
  | inl absent ↦ ground (arith, absent)
  | inr (s, found) ↦ (s, found, ground (arith, found))
]

-- The `n` offsets from `o` on.
abbrev pub consecutive : ℕ → ℕ → List ℕ
consecutive o zero = []
consecutive o (suc n) = o ∷ consecutive (suc o) n

-- What the loop of `Complete` does in `n` rounds.
pub record Flushed (c : Committer) (r : Committer × List ℕ) (n : ℕ) : Type 0 where
  pub moved : r.0.next_offset ≡ c.next_offset + n
  pub marked : r.1 ≡ consecutive c.next_offset n
  pub ready : (j : ℕ) → c.next_offset ≤ j → j < c.next_offset + n → IsDone c.states j
  pub left :
      (j : ℕ)
      → lookup j r.0.states
        ≡ (if leb c.next_offset j && ltb j (c.next_offset + n) then none else lookup j c.states)
  pub same_generation : r.0.generation_id ≡ c.generation_id
  pub same_initialized : r.0.initialized ≡ c.initialized

Flushed-none : (c : Committer) → Flushed c (c, []) 0
Flushed-none c = record {
  moved = omega arith;
  marked = refl;
  ready = λ j a b. absurd (omega arith);
  left = λ j. ground arith;
  same_generation = refl;
  same_initialized = refl;
}

advance-IsFaithful : (c : Committer) → IsFaithful c.states → IsFaithful (advance c).states
unfolding advance
advance-IsFaithful c h o s at = ground (arith, lookup-delete c.next_offset o c.states, h o s)

advance-next :
    (c : Committer) → c.next_offset < half_word → (advance c).next_offset ≡ suc c.next_offset
unfolding advance
advance-next c h = omega arith

-- One more round in front.
Flushed-suc :
    (c : Committer) (s : CommitState) (r : Committer × List ℕ) (n : ℕ)
    → lookup c.next_offset c.states ≡ some s
    → s.done ≡ true
    → c.next_offset < half_word
    → Flushed (advance c) r n
    → Flushed c (r.0, c.next_offset ∷ r.1) (suc n)
unfolding advance
Flushed-suc c s r n found done small h = record {
  moved = omega (arith, h.moved);
  marked = cc (h.marked, advance-next c small);
  ready = λ j a b. ground (arith, found, lookup-delete c.next_offset j c.states, h.ready j);
  left = λ j. ground (arith, lookup-delete c.next_offset j c.states, h.left j);
  same_generation = h.same_generation;
  same_initialized = h.same_initialized;
}

pub flush-Flushed :
    (f : ℕ) (c : Committer) → IsFaithful c.states → (n : ℕ) × Flushed c (flush f c) n
unfolding flush
flush-Flushed zero c h = (0, Flushed-none c)
flush-Flushed (suc f) c h = elim (Option-cases (lookup c.next_offset c.states)) [
  | inl absent ↦ (0, rw (absent, flush) (Flushed-none c))
  | inr (s, found) ↦ elim (Bool-cases s.done) [
    | inr pending ↦ (0, rw (found, flush) (rw pending (Flushed-none c)))
    | inl done ↦
        let (mark, small) = h c.next_offset s found in
        let (n, rest) = flush-Flushed f (advance c) (advance-IsFaithful c h) in
        (
          suc n,
          rw (found, flush)
              (rw (done, mark) (Flushed-suc c s (flush f (advance c)) n found done small rest)),
        )
  ]
]

set_done-IsFaithful :
    (o : ℕ) (s : CommitState) (c : Committer)
    → IsFaithful c.states
    → lookup o c.states ≡ some s
    → IsFaithful (set_done o s c).states
unfolding set_done
set_done-IsFaithful o s c h found j t at =
    ground (arith, lookup-insert o j (record s { done = true }) c.states, h o s, h j t)

set_done-IsDone :
    (o : ℕ) (s : CommitState) (c : Committer) (j : ℕ)
    → IsDone (set_done o s c).states j
    → (j ≡ o) ⊎ IsDone c.states j
unfolding set_done
set_done-IsDone o s c j h = ground (arith, lookup-insert o j (record s { done = true }) c.states)

next-set_done :
    (o : ℕ) (s : CommitState) (c : Committer) → (set_done o s c).next_offset ≡ c.next_offset
unfolding set_done
next-set_done o s c = ground arith

-- What a call of `Complete` for the offset `o` marks, and what it leaves.
pub record Outcome (o : ℕ) (c : Committer) (r : Committer × List ℕ) (n : ℕ) : Type 0 where
  pub marked : r.1 ≡ consecutive c.next_offset n
  pub ready : (j : ℕ) → c.next_offset ≤ j → j < c.next_offset + n → (j ≡ o) ⊎ IsDone c.states j
  pub faithful : IsFaithful r.0.states
  pub left : (j : ℕ) → IsDone r.0.states j → (j ≡ o) ⊎ IsDone c.states j

Outcome-none : (o : ℕ) (c : Committer) → IsFaithful c.states → Outcome o c (c, []) 0
Outcome-none o c h = record {
  marked = refl;
  ready = λ j a b. absurd (omega arith);
  faithful = h;
  left = λ j d. inr d;
}

reset_if_empty-kept :
    (c : Committer) (j : ℕ) (s : CommitState)
    → lookup j (reset_if_empty c).states ≡ some s
    → lookup j c.states ≡ some s
unfolding reset_if_empty OrderedCommit.reset lookup
reset_if_empty-kept c j s = elim (Bool-cases (length c.states == 0)) [
  | inl empty ↦ rw empty (λ at. cc)
  | inr left ↦ rw left (λ at. at)
]

-- What the loop leaves was there before.
flush_all-kept :
    (c : Committer)
    → IsFaithful c.states
    → (j : ℕ) (s : CommitState) → lookup j (flush_all c).0.states ≡ some s
    → lookup j c.states ≡ some s
unfolding flush_all
flush_all-kept c h j s at =
    let (n, f) = flush-Flushed (suc (length c.states)) c h in
    let before = reset_if_empty-kept (flush (suc (length c.states)) c).0 j s at in
    ground (arith, before, f.left j)

flush_all-Outcome :
    (o : ℕ) (s : CommitState) (c : Committer)
    → IsFaithful c.states
    → lookup o c.states ≡ some s
    → (n : ℕ) × Outcome o c (flush_all (set_done o s c)) n
unfolding flush_all
flush_all-Outcome o s c h found =
    let d = set_done o s c in
    let g = set_done-IsFaithful o s c h found in
    let (n, f) = flush-Flushed (suc (length d.states)) d g in
    let next = next-set_done o s c in
    (
      n,
      record {
        marked = f.marked ∙ ap (λ k. consecutive k n) next;
        ready = λ j a b.
            set_done-IsDone o s c j (f.ready j (omega (arith, next)) (omega (arith, next)));
        faithful = λ j t at. g j t (flush_all-kept d g j t at);
        left = λ j e.
            let (t, at, done) = IsDone-some (flush_all d).0.states j e in
            set_done-IsDone o s c j (rw (flush_all-kept d g j t at) done);
      },
    )

-- `Complete` does nothing, or it completes the state that it finds and runs its loop.
pub complete_cases :
    (o g : ℕ) (c : Committer)
    → (complete o g c ≡ (c, []))
      ⊎ ((s : CommitState) × (lookup o c.states ≡ some s)
          × (complete o g c ≡ flush_all (set_done o s c)))
unfolding complete complete_state
complete_cases o g c = elim (Option-cases (lookup o c.states)) [
  | inl absent ↦ inl (rw (absent, complete))
  | inr (s, found) ↦ elim (Bool-cases (not (s.generation_id == g) || not (c.generation_id == g))) [
    | inl stale ↦ inl (rw (found, complete) (rw stale))
    | inr active ↦ inr (s, found, rw (found, complete) (rw active))
  ]
]

-- On a committer whose registered offsets are not negative and each have a callback, not nil, that
-- marks that very offset, a call of `Complete`, for any offset and generation: the offsets that it marks are those
-- from `nextOffset` on without a gap, and each of them was completed before, or is the one completed now.
pub complete-Outcome :
    (o g : ℕ) (c : Committer) → IsFaithful c.states → (n : ℕ) × Outcome o c (complete o g c) n
complete-Outcome o g c h = elim (complete_cases o g c) [
  | inl nothing ↦ (0, rw nothing (Outcome-none o c h))
  | inr (s, found, flushed) ↦ rw flushed (flush_all-Outcome o s c h found)
]

All-consecutive : (p o n : ℕ) → o + n ≤ p → All (λ (m : ℕ). m < p) (consecutive o n)
All-consecutive p o zero h = tt
All-consecutive p o (suc n) h = (omega arith, All-consecutive p (suc o) n (omega arith))

-- On a committer whose registered offsets are not negative and each have a callback, not nil, that
-- marks that very offset, a later success never skips an earlier offset that is pending: what a call of `Complete` marks
-- lies below each offset, not below `nextOffset`, that is registered, not completed, and not the
-- one that the call completes.
pub complete_blocked :
    (o g p : ℕ) (c : Committer)
    → IsFaithful c.states
    → c.next_offset ≤ p
    → p ≢ o
    → ¬ IsDone c.states p
    → All (λ (m : ℕ). m < p) (complete o g c).1
complete_blocked o g p c h le ne pending =
    let (n, outcome) = complete-Outcome o g c h in
    rw outcome.marked (All-consecutive p c.next_offset n (below n outcome))
  where
    below : (n : ℕ) → Outcome o c (complete o g c) n → c.next_offset + n ≤ p
    below n outcome = elim (dec_le (c.next_offset + n) p) [
      | yes fits ↦ fits
      | no over ↦ elim (outcome.ready p le (omega arith)) [
        | inl e ↦ absurd (ne e)
        | inr done ↦ absurd (pending done)
      ]
    ]
