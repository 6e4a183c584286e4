-- ===== src/Kafka/OrderedCommit/Draining.antt =====
-- eventbus/kafka/ordered_commit.go over contiguous offsets: one call of `Complete`.
use analytics_core.Prelude.{
  ℕ, zero, suc, ◌+◌, ◌<◌, ◌≤◌, ◌≡◌, ◌⊎◌, ◌∙◌, ap, true, none, some, List, [], ◌==◌, arith, length,
  half_word, Bool-cases, Option-cases, lookup, lookup-insert, nat_eq, inl, inr, if◌then◌else◌,
  ==_iff,
}
use native.Mathlib.Decide.{dec_lt}
use analytics_core.Kafka.OrderedCommit
use analytics_core.Kafka.OrderedCommit.{
  CommitState, Committer, Call, registers, completes, new_committer, register, add_state, track_gap,
  set_done, flush, flush_all, reset_if_empty, complete, complete_state, step, run,
}
use analytics_core.Kafka.OrderedCommit.Consistency.{IsSettled, flush-IsSettled}
use analytics_core.Kafka.OrderedCommit.Marks.{
  IsFaithful, IsDone, consecutive, Flushed, flush-Flushed,
}

-- At work for `g`: the registered offsets are those from `lo`, the next to mark, up to `hi`.
pub record Covers (g lo hi : ℕ) (c : Committer) : Type 0 where
  pub started : c.initialized ≡ true
  pub active : c.generation_id ≡ g
  pub next : c.next_offset ≡ lo
  pub small : hi ≤ half_word
  pub there :
      (j : ℕ)
      → lo ≤ j
      → j < hi
      → (s : CommitState) × (lookup j c.states ≡ some s)
        × (s.generation_id ≡ g)
        × (s.mark_fn ≡ some j)
  pub only : (j : ℕ) (s : CommitState) → lookup j c.states ≡ some s → (lo ≤ j) × (j < hi)

Covers-IsFaithful : {g lo hi : ℕ} {c : Committer} → Covers g lo hi c → IsFaithful c.states
Covers-IsFaithful {g} {lo} {hi} {c} h j s at =
    let (low, high) = h.only j s at in
    let (t, found, _, mark) = h.there j low high in
    (ground (arith, found, mark), omega (arith, h.small))

pub complete_absent :
    (o g : ℕ) (c : Committer) → lookup o c.states ≡ none → complete o g c ≡ (c, [])
unfolding complete
complete_absent o g c h = rw (h, complete)

pub complete_found :
    (o g : ℕ) (s : CommitState) (c : Committer)
    → lookup o c.states ≡ some s
    → s.generation_id ≡ g
    → c.generation_id ≡ g
    → complete o g c ≡ flush_all (set_done o s c)
unfolding complete
complete_found o g s c h e f = rw (h, complete) (state_active o g s c e f)
  where
    state_active :
        (o g : ℕ) (s : CommitState) (c : Committer)
        → s.generation_id ≡ g
        → c.generation_id ≡ g
        → complete_state o g s c ≡ flush_all (set_done o s c)
    state_active o g s c e f = ground arith

pub set_done_same :
    (o : ℕ) (s : CommitState) (c : Committer)
    → ((set_done o s c).initialized ≡ c.initialized)
      × ((set_done o s c).generation_id ≡ c.generation_id)
      × ((set_done o s c).next_offset ≡ c.next_offset)
unfolding set_done
set_done_same o s c = ground arith

-- What is found behind `set_done`.
lookup-set_done :
    (o : ℕ) (s : CommitState) (c : Committer) (j : ℕ)
    → lookup o c.states ≡ some s
    → lookup j (set_done o s c).states
      ≡ (if o == j then some (record s { done = true }) else lookup j c.states)
unfolding set_done
lookup-set_done o s c j found =
    ground (arith, lookup-insert o j (record s { done = true }) c.states, ==_iff o j)

pub set_done-Covers :
    {g lo hi : ℕ} (o : ℕ) (s : CommitState) (c : Committer)
    → Covers g lo hi c
    → lookup o c.states ≡ some s
    → Covers g lo hi (set_done o s c)
set_done-Covers {g} {lo} {hi} o s c h found =
    let (started, active, next) = set_done_same o s c in
    record {
      started = started ∙ h.started;
      active = active ∙ h.active;
      next = next ∙ h.next;
      small = h.small;
      there = λ j a b.
          let (t, at, generation, mark) = h.there j a b in
          elim (Bool-cases (o == j)) [
            | inl same ↦ (
              record t { done = true },
              ground (arith, lookup-set_done o s c j found, at, same),
              generation,
              mark,
            )
            | inr other ↦
                (t, ground (arith, lookup-set_done o s c j found, other), generation, mark)
          ];
      only = λ j t at. ground (arith, lookup-set_done o s c j found, h.only j t, h.only o s found);
    }

pub set_done-IsDone :
    (o : ℕ) (s : CommitState) (c : Committer) (j : ℕ)
    → lookup o c.states ≡ some s
    → (j ≡ o) ⊎ IsDone c.states j
    → IsDone (set_done o s c).states j
set_done-IsDone o s c j found h = ground (arith, lookup-set_done o s c j found)

-- The loop of `Complete` over contiguous offsets: `n` marks, and what is left starts at `lo + n`.
pub record Drained (g lo hi : ℕ) (c : Committer) (r : Committer × List ℕ) (n : ℕ) : Type 0 where
  pub marked : r.1 ≡ consecutive lo n
  pub within : lo + n ≤ hi
  pub rest :
      ((r.0.states ≡ []) × (lo + n ≡ hi))
      ⊎ (Covers g (lo + n) hi r.0
          × IsSettled r.0
          × ((j : ℕ) → lo + n ≤ j → IsDone c.states j → IsDone r.0.states j))

module _ {g lo hi : ℕ} (c : Committer) (h : Covers g lo hi c) where
  flush-within : (r : Committer × List ℕ) (n : ℕ) → Flushed c r n → lo ≤ hi → lo + n ≤ hi
  flush-within r zero f ordered = omega arith
  flush-within r (suc n) f ordered =
      let done = f.ready (lo + n) (omega (arith, h.next)) (omega (arith, h.next)) in
      omega (arith, is_within (lo + n) done)
    where
      is_within : (j : ℕ) → IsDone c.states j → j < hi
      is_within j done = elim (Option-cases (lookup j c.states)) [
        | inl absent ↦ ground (arith, absent)
        | inr (s, found) ↦ (h.only j s found).1
      ]

  flush-Covers :
      (r : Committer × List ℕ) (n : ℕ) → Flushed c r n → lo ≤ hi → Covers g (lo + n) hi r.0
  flush-Covers r n f ordered = record {
    started = f.same_initialized ∙ h.started;
    active = f.same_generation ∙ h.active;
    next = omega (arith, f.moved, h.next);
    small = h.small;
    there = λ j a b.
        let (s, at, generation, mark) = h.there j (omega arith) b in
        (s, ground (arith, f.left j, at, h.next), generation, mark);
    only = λ j s at. ground (arith, f.left j, h.only j s, h.next);
  }

  flush-kept :
      (r : Committer × List ℕ) (n : ℕ)
      → Flushed c r n
      → (j : ℕ) → lo + n ≤ j
      → IsDone c.states j
      → IsDone r.0.states j
  flush-kept r n f j a done = ground (arith, f.left j, h.next)

-- Nothing left means that the loop came to the end.
Covers-empty : {g lo hi : ℕ} (c : Committer) → Covers g lo hi c → lo ≤ hi → c.states ≡ [] → lo ≡ hi
unfolding lookup
Covers-empty {g} {lo} {hi} c h ordered empty = elim (dec_lt lo hi) [
  | no end ↦ omega arith
  | yes more ↦ let (s, at, _, _) = h.there lo (omega arith) more in cc
]

reset_if_empty_cases :
    (c : Committer) → ((c.states ≡ []) × ((reset_if_empty c).states ≡ [])) ⊎ (reset_if_empty c ≡ c)
unfolding reset_if_empty OrderedCommit.reset
reset_if_empty_cases c = ground arith

pub flush_all-Drained :
    {g lo hi : ℕ} (c : Committer)
    → Covers g lo hi c
    → lo ≤ hi
    → (n : ℕ) × Drained g lo hi c (flush_all c) n
unfolding flush_all
flush_all-Drained {g} {lo} {hi} c h ordered =
    let fuel = suc (length c.states) in
    let r = flush fuel c in
    let (n, f) = flush-Flushed fuel c (Covers-IsFaithful h) in
    let within = flush-within c h r n f ordered in
    let covers = flush-Covers c h r n f ordered in
    (
      n,
      record {
        marked = f.marked ∙ ap (λ k. consecutive k n) h.next;
        within = within;
        rest = elim (reset_if_empty_cases r.0) [
          | inl (empty, gone) ↦ inl (gone, Covers-empty r.0 covers within empty)
          | inr same ↦
              inr (rw same (covers, flush-IsSettled fuel c (omega arith), flush-kept c h r n f))
        ];
      },
    )
