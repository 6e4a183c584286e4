-- ===== src/Storage/Backends.antt =====
-- The databases that the storage adapters call, as interfaces: a MySQL table of status rows through
-- GORM, and a ClickHouse table of rows through native batches. Their laws are the documented
-- behaviour that the adapters rely on: a statement that reports success is applied as a whole, and
-- one that reports an error is applied as a whole or not at all.
use analytics_core.Prelude.{
  ℕ, ◌<◌, ◌≡◌, refl, ◌≢◌, ◌⊎◌, Bool, true, Option, none, some, List, [], ◌∷◌, ◌++◌, Text, text_beq,
  text_beq_iff, if◌then◌else◌, ◌&&◌, ◌↔◌, Eq, Bool-cases, inl, inr, arith,
}
use analytics_core.Contracts.{EventEnvelope, Time}

abbrev pub Error : Type 0
Error = Text

-- `statusKey`, the primary key of a status row.
pub record StatusKey : Type 0 where
  pub tenant_id : Text
  pub project_id : Text
  pub source_id : Text
  pub event_id : Text

unfoldable pub key_beq : StatusKey → StatusKey → Bool
key_beq j k =
    text_beq j.tenant_id k.tenant_id
    && text_beq j.project_id k.project_id
    && text_beq j.source_id k.source_id
    && text_beq j.event_id k.event_id

pub key_beq_iff : (j k : StatusKey) → (key_beq j k ≡ true) ↔ (j ≡ k)
unfolding key_beq
key_beq_iff j k = ground (
  arith,
  text_beq_iff j.tenant_id k.tenant_id,
  text_beq_iff j.project_id k.project_id,
  text_beq_iff j.source_id k.source_id,
  text_beq_iff j.event_id k.event_id,
)

instance abbrev pub key_eq : Eq StatusKey
key_eq = record { beq = key_beq; beq_iff = key_beq_iff }

pub key_cases : (j k : StatusKey) → (j ≡ k) ⊎ (j ≢ k)
key_cases j k = elim (Bool-cases (key_beq j k)) [
  | inl same ↦ inl (ground (arith, key_beq_iff j k))
  | inr differ ↦ inr (λ e. ground (arith, key_beq_iff j k))
]

-- `IngestionStatus` and `PropertyIndexingStatus` without the key and the timestamps that GORM keeps.
pub record StatusRow : Type 0 where
  pub status : Text
  pub attempt : ℕ
  pub last_error : Text
  pub received_at : Time

-- The result of a statement: `Error` and `RowsAffected`.
pub record Result : Type 0 where
  pub error : Option Error
  pub rows_affected : ℕ

-- One row changes by `f`, if it is there and passes the test.
abbrev pub change :
    (StatusRow → Bool) → (StatusRow → StatusRow) → Option StatusRow → Option StatusRow
change test f none = none
change test f (some row) = if test row then some (f row) else some row

pub record StatusTable : Type 1 where
  pub State : Type 0
  -- The row of a key.
  pub row_of : State → StatusKey → Option StatusRow
  -- `Clauses(clause.OnConflict{DoNothing: true}).Create(&row)`
  pub create : StatusKey → StatusRow → State → Result × State
  -- `Where(key).First(&row)`: an error, or the row.
  pub first : StatusKey → State → Option Error × StatusRow × State
  -- `Where(key).Where(test).Updates(f)`
  pub updates : StatusKey → (StatusRow → Bool) → (StatusRow → StatusRow) → State → Result × State
  pub create_inserts :
      (k : StatusKey) (row : StatusRow) (s : State)
      → (create k row s).0.error ≡ none
      → 0 < (create k row s).0.rows_affected
      → (row_of s k ≡ none) × (row_of (create k row s).1 k ≡ some row)
  pub create_conflicts :
      (k : StatusKey) (row : StatusRow) (s : State)
      → (create k row s).0.error ≡ none
      → (create k row s).0.rows_affected ≡ 0
      → row_of (create k row s).1 k ≡ row_of s k
  pub create_fails :
      (k : StatusKey) (row : StatusRow) (s : State) (e : Error)
      → (create k row s).0.error ≡ some e
      → (row_of (create k row s).1 k ≡ row_of s k)
        ⊎ ((row_of s k ≡ none) × (row_of (create k row s).1 k ≡ some row))
  pub create_elsewhere :
      (k : StatusKey) (row : StatusRow) (s : State) (j : StatusKey)
      → j ≢ k
      → row_of (create k row s).1 j ≡ row_of s j
  pub first_finds :
      (k : StatusKey) (s : State) → (first k s).0 ≡ none → row_of s k ≡ some (first k s).1
  pub first_reads :
      (k : StatusKey) (s : State) (j : StatusKey) → row_of (first k s).2 j ≡ row_of s j
  pub updates_applies :
      (k : StatusKey) (test : StatusRow → Bool) (f : StatusRow → StatusRow) (s : State)
      → (updates k test f s).0.error ≡ none
      → row_of (updates k test f s).1 k ≡ change test f (row_of s k)
  pub updates_fails :
      (k : StatusKey) (test : StatusRow → Bool) (f : StatusRow → StatusRow) (s : State) (e : Error)
      → (updates k test f s).0.error ≡ some e
      → (row_of (updates k test f s).1 k ≡ row_of s k)
        ⊎ (row_of (updates k test f s).1 k ≡ change test f (row_of s k))
  pub updates_elsewhere :
      (k : StatusKey) (test : StatusRow → Bool) (f : StatusRow → StatusRow) (s : State)
      (j : StatusKey)
      → j ≢ k
      → row_of (updates k test f s).1 j ≡ row_of s j

-- A ClickHouse connection that appends batches, each of one value of `B`. Preparing, filling and
-- aborting a batch changes no table, so only the answers are kept.
pub record Warehouse (B : Type 0) : Type 1 where
  pub State : Type 0
  -- What the tables hold, in the order of the appends.
  pub batches : State → List B
  pub prepare : B → State → Option Error × State
  pub append : B → State → Option Error × State
  pub send : B → State → Option Error × State
  pub prepare_reads : (b : B) (s : State) → batches (prepare b s).1 ≡ batches s
  pub append_reads : (b : B) (s : State) → batches (append b s).1 ≡ batches s
  pub send_applies :
      (b : B) (s : State) → (send b s).0 ≡ none → batches (send b s).1 ≡ batches s ++ b ∷ []
  pub send_fails :
      (b : B) (s : State) (e : Error)
      → (send b s).0 ≡ some e
      → (batches (send b s).1 ≡ batches s) ⊎ (batches (send b s).1 ≡ batches s ++ b ∷ [])

-- A call that returns a value or an error.
pub data Fallible {ℓ} (A : Type ℓ) : Type ℓ where
  ok : A → Fallible A
  err : Error → Fallible A

pub Fallible-cases {ℓ} :
    {A : Type ℓ} (r : Fallible A) → ((e : Error) × (r ≡ err e)) ⊎ ((a : A) × (r ≡ ok a))
Fallible-cases (ok a) = inr (a, refl)
Fallible-cases (err e) = inl (e, refl)

-- `storage.EventWriteGuard` with its `EventWriteClaim`, and `storage.PropertyWriteGuard` with its
-- `PropertyWriteClaim`: the two have the same operations. The claim may be nil.
pub record WriteGuard : Type 1 where
  pub State : Type 0
  pub Claim : Type 0
  pub start : EventEnvelope → State → Fallible (Option Claim) × State
  pub already_inserted : Claim → Bool
  pub commit : Claim → State → Option Error × State
  pub rollback : Claim → Error → State → Option Error × State
