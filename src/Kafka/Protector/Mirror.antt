-- ===== src/Kafka/Protector/Mirror.antt =====
-- eventbus/kafka/protector.go: what the protector remembers is what the group has paused, and the
-- keys of committers are read back.
use analytics_core.Prelude.{
  not, ◌||◌, ◌&&◌, ◌==◌, lookup, text_eq, List, ℕ, ◌<◌, ◌≡◌, refl, ap, ◌∙◌, Bool, true, false, none,
  some, [], ◌∷◌, ◌++◌, ltb, length, Text, is_empty, if◌then◌else◌, Bool-cases, inl, inr, arith, All,
  digits, is_digit, digits-All, read-digits, half_word32,
}
use mathlib.Core.Path.{subst, sym}
use analytics_core.Kafka.Protector.{
  ConsumptionProtector, Partitions, Command, pauses, resumes, pause_new, resume_all, observe,
  reconcile, ProtectorCall, observes, reconciles, protector_step, protector_run, paused_partitions,
  split_commit_key, split_last, commit_key,
}

-- The partitions that are paused, of each topic.
abbrev pub Held : Type 0
Held = Text → ℕ → Bool

abbrev pub one_of : ℕ → List ℕ → Bool
one_of n [] = false
one_of n (m ∷ ms) = m == n || one_of n ms

abbrev pub names_partition : Partitions → Held
unfolding lookup
names_partition partitions topic n = elim (lookup topic partitions) [
  | none ↦ false
  | some ms ↦ one_of n ms
]

abbrev pub adding : Partitions → Held → Held
adding partitions before = λ topic n. before topic n || names_partition partitions topic n

abbrev pub removing : Partitions → Held → Held
removing partitions before = λ topic n. before topic n && not (names_partition partitions topic n)

-- What a group that holds some partitions holds after the commands: sarama's Pause adds the
-- partitions to those that are paused, and Resume takes them away.
abbrev pub held : Held → List Command → Held
held before [] = before
held before (pauses partitions ∷ commands) = held (adding partitions before) commands
held before (resumes partitions ∷ commands) = held (removing partitions before) commands

held-append :
    (before : Held) (xs ys : List Command) → held before (xs ++ ys) ≡ held (held before xs) ys
held-append before [] ys = refl
held-append before (pauses p ∷ xs) ys = held-append (adding p before) xs ys
held-append before (resumes p ∷ xs) ys = held-append (removing p before) xs ys

-- Whoever is resumed was paused, no more and no less.
abbrev pub ResumesWhatIsHeld : Held → List Command → Type 0
ResumesWhatIsHeld before [] = Unit
ResumesWhatIsHeld before (pauses partitions ∷ commands) =
    ResumesWhatIsHeld (adding partitions before) commands
ResumesWhatIsHeld before (resumes partitions ∷ commands) =
    ((topic : Text) (n : ℕ) → names_partition partitions topic n ≡ before topic n)
    × ResumesWhatIsHeld (removing partitions before) commands

ResumesWhatIsHeld-append :
    (before : Held) (xs ys : List Command)
    → ResumesWhatIsHeld before xs
    → ResumesWhatIsHeld (held before xs) ys
    → ResumesWhatIsHeld before (xs ++ ys)
ResumesWhatIsHeld-append before [] ys h k = k
ResumesWhatIsHeld-append before (pauses p ∷ xs) ys h k =
    ResumesWhatIsHeld-append (adding p before) xs ys h k
ResumesWhatIsHeld-append before (resumes p ∷ xs) ys h k =
    (h.0, ResumesWhatIsHeld-append (removing p before) xs ys h.1 k)

record Mirrored (p : ConsumptionProtector) (r : ConsumptionProtector × List Command) : Type 0 where
  same :
      (topic : Text) (n : ℕ)
      → held (names_partition p.paused) r.1 topic n ≡ names_partition r.0.paused topic n
  resumed : ResumesWhatIsHeld (names_partition p.paused) r.1

Mirrored-none : (p : ConsumptionProtector) → Mirrored p (p, [])
Mirrored-none p = record { same = λ topic n. refl; resumed = tt }

resume-Mirrored : (p : ConsumptionProtector) → Mirrored p (resume_all p)
unfolding names_partition
resume-Mirrored p = record {
  same = λ topic n. taken (names_partition p.paused topic n);
  resumed = (λ topic n. refl, tt);
}
  where
    taken : (b : Bool) → (b && not b) ≡ false
    taken true = refl
    taken false = refl

-- A pause of new partitions, where none were paused.
pause-Mirrored :
    (p : ConsumptionProtector) (partitions : Partitions)
    → p.paused ≡ []
    → Mirrored p (pause_new partitions p)
unfolding names_partition
pause-Mirrored p partitions empty = elim (Bool-cases (ltb 0 (length partitions))) [
  | inl some_are ↦ rw some_are (record {
    same = λ topic n.
        ap (λ ps. names_partition ps topic n || names_partition partitions topic n) empty;
    resumed = tt;
  })
  | inr none_are ↦ rw none_are (Mirrored-none p)
]

again-Mirrored : (p : ConsumptionProtector) → Mirrored p (p, pauses p.paused ∷ [])
again-Mirrored p = record {
  same = λ topic n. twice (names_partition p.paused topic n);
  resumed = tt;
}
  where
    twice : (b : Bool) → (b || b) ≡ b
    twice true = refl
    twice false = refl

if-Mirrored :
    (p : ConsumptionProtector) (test : Bool) (x y : ConsumptionProtector × List Command)
    → (test ≡ true → Mirrored p x)
    → Mirrored p y
    → Mirrored p (if test then x else y)
if-Mirrored p true x y h k = h refl
if-Mirrored p false x y h k = k

none_paused : (b : Bool) (ps : Partitions) → (b && length ps == 0) ≡ true → ps ≡ []
none_paused true [] h = refl
none_paused true (p ∷ ps) h = ground (arith, h)
none_paused false ps h = cc

step-Mirrored :
    (p : ConsumptionProtector) (call : ProtectorCall) → Mirrored p (protector_step p call)
unfolding protector_step observe reconcile
step-Mirrored p (observes snapshot) =
    if-Mirrored p _ _ _
      (λ h. pause-Mirrored p (paused_partitions snapshot) (none_paused _ p.paused h))
      (if-Mirrored p _ _ _ (λ h. resume-Mirrored p) (Mirrored-none p))
step-Mirrored p (reconciles snapshot) =
    if-Mirrored p _ _ _ (λ h. again-Mirrored p)
      (if-Mirrored p _ _ _ (λ h. resume-Mirrored p) (Mirrored-none p))

-- After any calls of `observe` and `reconcile`, whatever the pressure, a group that had paused what
-- the protector remembered has paused what the protector remembers now, where a Pause adds to what
-- is paused and a Resume takes away, and each resumption was of exactly the partitions that were
-- paused.
pub protector-mirrors :
    (p : ConsumptionProtector) (calls : List ProtectorCall)
    → let r = protector_run p calls in
      ((topic : Text) (n : ℕ)
        → held (names_partition p.paused) r.1 topic n ≡ names_partition r.0.paused topic n)
      × ResumesWhatIsHeld (names_partition p.paused) r.1
unfolding protector_run
protector-mirrors p [] = (λ topic n. refl, tt)
protector-mirrors p (call ∷ calls) =
    let first = step-Mirrored p call in
    let p' = (protector_step p call).0 in
    let commands = (protector_step p call).1 in
    let (same, resumed) = protector-mirrors p' calls in
    let later = (protector_run p' calls).1 in
    let before : held (names_partition p.paused) commands ≡ names_partition p'.paused =
      λ i topic n. first.same topic n i in
    (
      λ topic n.
          ap (λ h. h topic n) (held-append (names_partition p.paused) commands later)
          ∙ ap (λ h. held h later topic n) before
          ∙ same topic n,
      ResumesWhatIsHeld-append (names_partition p.paused) commands later first.resumed
          (subst (λ h. ResumesWhatIsHeld h later) (sym before) resumed),
    )

no_colon : (s : Text) → All (λ c. is_digit c ≡ true) s → split_last s ≡ none
no_colon [] h = refl
no_colon (c ∷ s) h = rw (no_colon s h.1) (ground (arith, h.0))

last_colon :
    (topic s : Text)
    → All (λ c. is_digit c ≡ true) s
    → split_last (topic ++ 58 ∷ s) ≡ some (topic, s)
last_colon [] s h = rw (no_colon s h) refl
last_colon (c ∷ topic) s h = rw (last_colon topic s h) refl

-- The key of a committer, for a topic that is not empty, colons or not, and a partition that fits
-- an int32 that is not negative, is split into that topic and that partition.
pub split-commit_key :
    (topic : Text) (partition : ℕ)
    → is_empty topic ≡ false
    → partition < half_word32
    → split_commit_key (commit_key topic partition) ≡ some (topic, partition)
unfolding split_commit_key
split-commit_key topic partition named small =
    let s = digits 10 partition in
    let read =
      read-digits 10 partition (omega (arith, small)) (omega (arith, small)) (omega arith) in
    rw (last_colon topic s (digits-All 10 partition), split_commit_key)
      (rw (read, split_commit_key) (rw named refl))
