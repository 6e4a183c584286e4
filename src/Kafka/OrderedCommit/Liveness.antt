-- ===== src/Kafka/OrderedCommit/Liveness.antt =====
-- eventbus/kafka/ordered_commit.go over contiguous offsets: in whatever order the handlers finish,
-- every offset is marked, once and in order.
use mathlib.Core.List.{append-nil}
use analytics_core.Kafka.OrderedCommit.Registering.{registrations, run-append, first_registrations}
use analytics_core.Prelude.{
  ℕ, zero, suc, ◌+◌, ◌-◌, ◌<◌, ◌≤◌, ◌≡◌, ◌⊎◌, ◌∙◌, refl, ap, none, some, List, [], ◌∷◌, ◌++◌, arith,
  half_word, Option-cases, lookup, map, nat_eq, inl, inr, empty_of_lookup,
}
use native.Mathlib.Decide.{dec_lt}
use native.Mathlib.Nat.{add-zero, add-suc, suc-add}
use analytics_core.Kafka.OrderedCommit.{
  CommitState, Committer, Call, completes, new_committer, set_done, flush_all, complete, step, run,
}
use analytics_core.Kafka.OrderedCommit.Consistency.{IsSettled}
use analytics_core.Kafka.OrderedCommit.Invariant.{run-IsWellFormed}
use analytics_core.Kafka.OrderedCommit.Marks.{IsDone, consecutive}
use analytics_core.Kafka.OrderedCommit.Draining.{
  Covers, complete_absent, complete_found, set_done-Covers, set_done-IsDone, flush_all-Drained,
}

record Progress (g lo hi o : ℕ) (c : Committer) (r : Committer × List ℕ) (n : ℕ) : Type 0 where
  marked : r.1 ≡ consecutive lo n
  within : lo + n ≤ hi
  rest :
      ((r.0.states ≡ []) × (lo + n ≡ hi))
      ⊎ (Covers g (lo + n) hi r.0
          × IsSettled r.0
          × ((j : ℕ) → lo + n ≤ j → j < hi → (j ≡ o) ⊎ IsDone c.states j → IsDone r.0.states j))

absent-Progress :
    {g lo hi : ℕ} (o : ℕ) (c : Committer)
    → Covers g lo hi c
    → IsSettled c
    → lo ≤ hi
    → lookup o c.states ≡ none
    → Progress g lo hi o c (c, []) 0
absent-Progress {g} {lo} {hi} o c h settled ordered absent = record {
  marked = refl;
  within = omega arith;
  rest = inr (
    rw add-zero h,
    settled,
    λ j a b e. elim e [
      | inr done ↦ done
      | inl same ↦ let (s, at, _, _) = h.there j (omega arith) b in absurd (cc (absent, same, at))
    ],
  );
}

found-Progress :
    {g lo hi : ℕ} (o : ℕ) (s : CommitState) (c : Committer)
    → Covers g lo hi c
    → lo ≤ hi
    → lookup o c.states ≡ some s
    → (n : ℕ) × Progress g lo hi o c (flush_all (set_done o s c)) n
found-Progress o s c h ordered found =
    let (n, d) = flush_all-Drained (set_done o s c) (set_done-Covers o s c h found) ordered in
    (
      n,
      record {
        marked = d.marked;
        within = d.within;
        rest = elim d.rest [
          | inl over ↦ inl over
          | inr (covers, settled, kept) ↦
              inr (covers, settled, λ j a b e. kept j a (set_done-IsDone o s c j found e))
        ];
      },
    )

complete-Progress :
    {g lo hi : ℕ} (o : ℕ) (c : Committer)
    → Covers g lo hi c
    → IsSettled c
    → lo ≤ hi
    → (n : ℕ) × Progress g lo hi o c (complete o g c) n
complete-Progress {g} o c h settled ordered = elim (Option-cases (lookup o c.states)) [
  | inl absent ↦
      (0, rw (complete_absent o g c absent) (absent-Progress o c h settled ordered absent))
  | inr (s, found) ↦
      let (low, high) = h.only o s found in
      let (t, at, generation, _) = h.there o low high in
      rw (complete_found o g s c found (cc (generation, at, found)) h.active)
        (found-Progress o s c h ordered found)
]

-- A worker for each message calls `Complete`; they finish in the given order.
abbrev pub completions : ℕ → List ℕ → List Call
completions g order = map (λ o. completes o g) order

abbrev pub Listed : ℕ → List ℕ → Type 0
Listed j [] = ⊥
Listed j (o ∷ order) = (j ≡ o) ⊎ Listed j order

consecutive-append :
    (lo n m : ℕ) → consecutive lo n ++ consecutive (lo + n) m ≡ consecutive lo (n + m)
consecutive-append lo zero m = ground (arith, add-zero lo)
consecutive-append lo (suc n) m =
    rw (add-suc lo n, suc-add n m) (ap (◌∷◌ lo) (rw suc-add at (consecutive-append (suc lo) n m)))

empty_run :
    (g : ℕ) (order : List ℕ) (c : Committer) → c.states ≡ [] → run c (completions g order) ≡ (c, [])
unfolding run step lookup
empty_run g [] c h = refl
empty_run g (o ∷ order) c h = rw (complete_absent o g c (cc h)) (rw (empty_run g order c h))

run-completions :
    (g o : ℕ) (order : List ℕ) (c : Committer)
    → run c (completions g (o ∷ order)) ≡ (
      (run (complete o g c).0 (completions g order)).0,
      (complete o g c).1 ++ (run (complete o g c).0 (completions g order)).1,
    )
unfolding run step
run-completions g o order c = refl

complete_all :
    (g hi : ℕ) (order : List ℕ) (lo : ℕ) (c : Committer)
    → Covers g lo hi c
    → IsSettled c
    → lo ≤ hi
    → ((j : ℕ) → lo ≤ j → j < hi → IsDone c.states j ⊎ Listed j order)
    → ((run c (completions g order)).1 ≡ consecutive lo (hi - lo))
      × ((run c (completions g order)).0.states ≡ [])
complete_all g hi [] lo c h settled ordered all = elim (dec_lt lo hi) [
  | yes more ↦ absurd (unsettled more)
  | no end ↦
      let same : hi - lo ≡ 0 = omega arith in
      unfold run in (rw same refl, empty_of_lookup c.states (nothing end))
]
  where
    unsettled : lo < hi → ⊥
    unsettled more =
        let (s, at, _, _) = h.there lo (omega arith) more in
        ground (arith, settled s (rw h.next at), all lo (omega arith) more, at)

    nothing : ¬ (lo < hi) → (k : ℕ) → lookup k c.states ≡ none
    nothing end k = elim (Option-cases (lookup k c.states)) [
      | inl absent ↦ absent
      | inr (s, found) ↦ absurd (omega (arith, h.only k s found))
    ]
complete_all g hi (o ∷ order) lo c h settled ordered all =
    let (n, p) = complete-Progress o c h settled ordered in
    elim p.rest [
      | inl (empty, end) ↦
          let same : hi - lo ≡ n = omega (arith, end) in
          rw (run-completions, empty_run g order (complete o g c).0 empty)
            (rw (append-nil, p.marked, same) refl, empty)
      | inr (covers, still, kept) ↦
          let (marks, empty) =
            complete_all g hi order (lo + n) (complete o g c).0 covers still p.within
              (λ j a b. left_over n kept j a b) in
          let same : hi - lo ≡ n + (hi - (lo + n)) = omega (arith, p.within) in
          rw run-completions
            (rw (p.marked, marks, same) (consecutive-append lo n (hi - (lo + n))), empty)
    ]
  where
    left_over :
        (n : ℕ)
        → ((j : ℕ)
            → lo + n ≤ j
            → j < hi
            → (j ≡ o) ⊎ IsDone c.states j
            → IsDone (complete o g c).0.states j)
        → (j : ℕ) → lo + n ≤ j
        → j < hi
        → IsDone (complete o g c).0.states j ⊎ Listed j order
    left_over n kept j a b = elim (all j (omega arith) b) [
      | inl done ↦ inl (kept j a b (inr done))
      | inr (inl same) ↦ inl (kept j a b (inl same))
      | inr (inr later) ↦ inr later
    ]

-- Once a session of generation `g` has registered the `n` messages from `lo` on (offsets that fit a
-- non-negative int64) and the workers have completed each of them, in any order at all and as often
-- as they like, every one of them has been marked, exactly once and in offset order, and nothing is
-- left to mark.
pub all_orders_mark_all :
    (g lo n : ℕ) (order : List ℕ)
    → lo + n ≤ half_word
    → ((j : ℕ) → lo ≤ j → j < lo + n → Listed j order)
    → let r = run new_committer (registrations g (consecutive lo n) ++ completions g order) in
      (r.1 ≡ consecutive lo n) × (r.0.states ≡ [])
unfolding new_committer
all_orders_mark_all g lo zero order room all =
    rw (empty_run g order new_committer refl) (refl, refl)
all_orders_mark_all g lo (suc n) order room all =
    let regs = registrations g (consecutive lo (suc n)) in
    let (covers, nothing) = first_registrations g lo n room in
    let (marks, empty) =
      complete_all g (suc lo + n) order lo (run new_committer regs).0 covers
        (run-IsWellFormed regs).settled (omega arith) (λ j a b. inr (all j a (omega arith))) in
    let count : suc lo + n - lo ≡ suc n = omega arith in
    rw (run-append new_committer regs (completions g order), nothing)
      (marks ∙ ap (consecutive lo) count, empty)
