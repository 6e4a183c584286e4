-- ===== src/Kafka/Protector.antt =====
-- eventbus/kafka/protector.go: partitions are paused under local pressure and resumed after it.
pub mod Mirror
use analytics_core.Prelude.{
  ℕ, zero, suc, ◌+◌, ◌*◌, ◌^◌, Bool, true, false, not, ◌&&◌, ◌||◌, Option, none, some, List, [],
  ◌∷◌, ◌++◌, ltb, leb, ◌==◌, length, Text, txt, is_empty, if◌then◌else◌, Dict, lookup, insert,
  text_eq, lt64, add64, digits, read_digits,
}
use analytics_core.Contracts.{Float, finite, infinite, nan}

-- The key of a committer, `fmt.Sprintf("%s:%d", topic, partition)`.
abbrev pub commit_key : Text → ℕ → Text
commit_key topic partition = topic ++ 58 ∷ digits 10 partition

-- The texts before and behind the last colon.
abbrev pub split_last : Text → Option (Text × Text)
split_last [] = none
split_last (c ∷ s) = elim (split_last s) [
  | some parts ↦ some (c ∷ parts.0, parts.1)
  | none ↦ if c == 58 then some ([], s) else none
]

-- `splitCommitKey`; no result is `ok = false`.
unfoldable pub split_commit_key : Text → Option (Text × ℕ)
split_commit_key key = elim (split_last key) [
  | none ↦ none
  | some parts ↦ elim (read_digits 0 parts.1) [
    | none ↦ none
    | some partition ↦ if is_empty parts.0 then none else some (parts.0, partition)
  ]
]

-- The fields of the snapshots that the protector reads.
pub record CommitPressure : Type 0 where
  pub key : Text
  pub pending_count : ℕ

pub record ConsumptionSnapshot : Type 0 where
  pub commits : List CommitPressure
  pub in_flight_messages : ℕ
  pub waiting_tasks : ℕ
  pub queue_usage_ratio : Float

abbrev pub Partitions : Type 0
Partitions = Dict Text (List ℕ)

pub record ConsumptionProtector : Type 0 where
  pub paused : Partitions
  pub pause_transitions_total : ℕ
  pub resume_transitions_total : ℕ
  pub hard_pending : ℕ
  pub hard_gate : ℕ
  pub hard_queue_ratio : Float

-- `a >= b` of float64.
abbrev pub float_geb : Float → Float → Bool
float_geb nan b = false
float_geb (infinite s) nan = false
float_geb (infinite false) b = true
float_geb (infinite true) (infinite s) = s
float_geb (infinite true) (finite t m e) = false
float_geb (finite s m e) nan = false
float_geb (finite s m e) (infinite t) = t
float_geb (finite false m e) (finite false n f) = leb (n * 2 ^ f) (m * 2 ^ e)
float_geb (finite false m e) (finite true n f) = true
float_geb (finite true m e) (finite false n f) = m == 0 && n == 0
float_geb (finite true m e) (finite true n f) = leb (m * 2 ^ e) (n * 2 ^ f)

abbrev pub any_pending : ℕ → List CommitPressure → Bool
any_pending hard [] = false
any_pending hard (commit ∷ commits) =
    not (lt64 commit.pending_count hard) || any_pending hard commits

unfoldable pub has_hard_pressure : ConsumptionProtector → ConsumptionSnapshot → Bool
has_hard_pressure p snapshot =
    not (lt64 snapshot.in_flight_messages p.hard_gate)
    || not (lt64 snapshot.waiting_tasks p.hard_gate)
    || float_geb snapshot.queue_usage_ratio p.hard_queue_ratio
    || any_pending p.hard_pending snapshot.commits

abbrev add_partition : Text → ℕ → Partitions → Partitions
unfolding lookup insert
add_partition topic partition partitions = elim (lookup topic partitions) [
  | none ↦ insert topic (partition ∷ []) partitions
  | some values ↦ insert topic (values ++ partition ∷ []) partitions
]

-- The loop of `pausedPartitions`.
abbrev add_partitions : List CommitPressure → Partitions → Partitions
unfolding split_commit_key add_partition
add_partitions [] partitions = partitions
add_partitions (commit ∷ commits) partitions = elim (split_commit_key commit.key) [
  | none ↦ add_partitions commits partitions
  | some at ↦ add_partitions commits (add_partition at.0 at.1 partitions)
]

unfoldable pub paused_partitions : ConsumptionSnapshot → Partitions
unfolding add_partitions
paused_partitions snapshot = add_partitions snapshot.commits []

-- What the protector asks of the consumer group.
pub data Command : Type 0 where
  pauses resumes : Partitions → Command

abbrev pub pause_new : Partitions → ConsumptionProtector → ConsumptionProtector × List Command
pause_new partitions p =
    if ltb 0 (length partitions)
    then (
      record p { paused = partitions; pause_transitions_total = add64 p.pause_transitions_total 1 },
      pauses partitions ∷ [],
    )
    else (p, [])

abbrev pub resume_all : ConsumptionProtector → ConsumptionProtector × List Command
resume_all p = (
  record p { paused = []; resume_transitions_total = add64 p.resume_transitions_total 1 },
  resumes p.paused ∷ [],
)

unfoldable pub observe :
    ConsumptionSnapshot → ConsumptionProtector → ConsumptionProtector × List Command
unfolding has_hard_pressure paused_partitions
observe snapshot p =
    let pressure = has_hard_pressure p snapshot in
    if pressure && length p.paused == 0
    then pause_new (paused_partitions snapshot) p
    else if not pressure && ltb 0 (length p.paused)
    then resume_all p
    else (p, [])

unfoldable pub reconcile :
    ConsumptionSnapshot → ConsumptionProtector → ConsumptionProtector × List Command
unfolding has_hard_pressure
reconcile snapshot p =
    let pressure = has_hard_pressure p snapshot in
    if pressure && ltb 0 (length p.paused)
    then (p, pauses p.paused ∷ [])
    else if not pressure && ltb 0 (length p.paused)
    then resume_all p
    else (p, [])

pub data ProtectorCall : Type 0 where
  observes reconciles : ConsumptionSnapshot → ProtectorCall

unfoldable pub protector_step :
    ConsumptionProtector → ProtectorCall → ConsumptionProtector × List Command
unfolding observe reconcile
protector_step p (observes snapshot) = observe snapshot p
protector_step p (reconciles snapshot) = reconcile snapshot p

unfoldable pub protector_run :
    ConsumptionProtector → List ProtectorCall → ConsumptionProtector × List Command
unfolding protector_step
protector_run p [] = (p, [])
protector_run p (call ∷ calls) =
    let (p', commands) = protector_step p call in
    let (p'', more) = protector_run p' calls in (p'', commands ++ more)
