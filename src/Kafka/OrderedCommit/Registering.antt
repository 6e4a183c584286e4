-- ===== src/Kafka/OrderedCommit/Registering.antt =====
-- eventbus/kafka/ordered_commit.go: a session registers contiguous offsets with an idle committer.
use mathlib.Core.List.{append_assoc}
use analytics_core.Prelude.{
  ℕ, zero, suc, ◌+◌, ◌<◌, ◌≤◌, ◌≡◌, ◌∙◌, refl, sym, ap, true, Option, none, some, List, [], ◌∷◌,
  ◌++◌, arith, half_word, lookup, map, lookup-insert, nat_eq,
}
use native.Mathlib.Decide.{dec_lt}
use native.Mathlib.Nat.{add-zero, add-suc, suc-add}
use analytics_core.Kafka.OrderedCommit.{
  CommitState, Committer, Call, registers, new_committer, register, add_state, track_gap,
  register_once, seed, drop_stale_generation, step, run,
}
use analytics_core.Kafka.OrderedCommit.Consistency.{fresh, seeded, seed_old, track_gap_same}
use analytics_core.Kafka.OrderedCommit.Stall.{drop_stale_same}
use analytics_core.Kafka.OrderedCommit.Marks.{consecutive}
use analytics_core.Kafka.OrderedCommit.Draining.{Covers}

-- The session registers the `n` messages from `lo` on, as it fetches them.
abbrev pub registrations : ℕ → List ℕ → List Call
registrations g offsets = map (λ o. registers o g (some o)) offsets

register_active :
    (o g : ℕ) (m : Option ℕ) (c : Committer)
    → c.initialized ≡ true
    → c.generation_id ≡ g
    → lookup o c.states ≡ none
    → register o g m c ≡ add_state o g m (track_gap o c)
unfolding register register_once
register_active o g m c started active absent =
    rw (drop_stale_same g c active) (rw (seed_old o g c started) (rw (absent, register_once) refl))

-- The first offset seen by a committer that is idle.
register_first :
    (o g : ℕ) (m : Option ℕ)
    → register o g m new_committer ≡ add_state o g m (track_gap o (seeded o g new_committer))
unfolding register register_once drop_stale_generation seed new_committer lookup
register_first o g m = refl

add-Covers :
    (g lo hi : ℕ) (c : Committer)
    → Covers g lo hi c
    → lo ≤ hi
    → hi < half_word
    → Covers g lo (suc hi) (add_state hi g (some hi) (track_gap hi c))
unfolding add_state
add-Covers g lo hi c h ordered room =
    let (states, generation, initialized, _, next) = track_gap_same hi c in
    record {
      started = initialized ∙ h.started;
      active = generation ∙ h.active;
      next = next ∙ h.next;
      small = room;
      there = λ j a b. elim (dec_lt j hi) [
        | yes old ↦
            let (s, at, of, mark) = h.there j a old in
            (
              s,
              ground (arith, lookup-insert hi j new_state (track_gap hi c).states, states, at),
              of,
              mark,
            )
        | no new ↦
            let same : j ≡ hi = omega arith in
            (
              new_state,
              ground (arith, lookup-insert hi j new_state (track_gap hi c).states, same),
              refl,
              ap some (sym same),
            )
      ];
      only = λ j s at.
          ground (arith, lookup-insert hi j new_state (track_gap hi c).states, states, h.only j s);
    }
  where
    new_state : CommitState
    new_state = fresh g (some hi)

register-Covers :
    (g lo hi : ℕ) (c : Committer)
    → Covers g lo hi c
    → lo ≤ hi
    → hi < half_word
    → Covers g lo (suc hi) (register hi g (some hi) c)
register-Covers g lo hi c h ordered room =
    rw (register_active hi g (some hi) c h.started h.active (absent (lookup hi c.states) refl))
      (add-Covers g lo hi c h ordered room)
  where
    absent : (r : Option CommitState) → lookup hi c.states ≡ r → lookup hi c.states ≡ none
    absent none e = e
    absent (some s) e = absurd (omega (arith, h.only hi s e))

seeded-Covers : (g lo : ℕ) → lo < half_word → Covers g lo lo (seeded lo g new_committer)
unfolding new_committer lookup
seeded-Covers g lo room = record {
  started = refl;
  active = refl;
  next = refl;
  small = omega arith;
  there = λ j a b. absurd (omega arith);
  only = λ j s at. cc;
}

run-registrations :
    (g lo : ℕ) (n hi : ℕ) (c : Committer)
    → Covers g lo hi c
    → lo ≤ hi
    → hi + n ≤ half_word
    → Covers g lo (hi + n) (run c (registrations g (consecutive hi n))).0
      × ((run c (registrations g (consecutive hi n))).1 ≡ [])
unfolding run step
run-registrations g lo zero hi c h ordered room = (rw add-zero h, refl)
run-registrations g lo (suc n) hi c h ordered room =
    let room' : suc hi + n ≤ half_word = omega arith in
    let (covers, nothing) =
      run-registrations g lo n (suc hi) (register hi g (some hi) c)
        (register-Covers g lo hi c h ordered (omega arith)) (omega arith) room' in
    (rw (add-suc hi n) (rw suc-add at covers), nothing)

pub run-append :
    (c : Committer) (xs ys : List Call)
    → run c (xs ++ ys) ≡ ((run (run c xs).0 ys).0, (run c xs).1 ++ (run (run c xs).0 ys).1)
unfolding run
run-append c [] ys = refl
run-append c (x ∷ xs) ys = rw (run-append (step c x).0 xs ys, append_assoc)

pub first_registrations :
    (g lo n : ℕ)
    → lo + suc n ≤ half_word
    → Covers g lo (suc lo + n) (run new_committer (registrations g (consecutive lo (suc n)))).0
      × ((run new_committer (registrations g (consecutive lo (suc n)))).1 ≡ [])
unfolding run step
first_registrations g lo n room =
    run-registrations g lo n (suc lo) (register lo g (some lo) new_committer)
      (rw register_first (
        add-Covers g lo lo (seeded lo g new_committer) (seeded-Covers g lo (omega arith))
          (omega arith) (omega arith)))
      (omega arith) (omega arith)
