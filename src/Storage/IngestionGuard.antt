-- ===== src/Storage/IngestionGuard.antt =====
-- storage/mysql/ingestion_status_guard.go: the status row that guards an event's append.
pub mod Claims
use analytics_core.Prelude.{
  ℕ, suc, ◌+◌, Bool, true, false, Option, none, some, List, [], leb, ltb, length, take, Text, txt,
  text_beq, is_empty, trim_space, if◌then◌else◌,
}
use analytics_core.Contracts.{EventEnvelope}
use analytics_core.Storage.Backends.{
  Error, StatusKey, StatusRow, Result, StatusTable, Fallible, ok, err, WriteGuard,
}

abbrev pub ingestion_status_processing : Text
ingestion_status_processing = txt "processing"

abbrev pub ingestion_status_inserted : Text
ingestion_status_inserted = txt "inserted"

abbrev pub ingestion_status_failed : Text
ingestion_status_failed = txt "failed"

abbrev pub status_key_from_envelope : EventEnvelope → StatusKey
status_key_from_envelope envelope = record {
  tenant_id = envelope.tenant_id;
  project_id = envelope.project_id;
  source_id = envelope.source_id;
  event_id = envelope.id;
}

unfoldable pub validate_status_envelope : EventEnvelope → Option Error
validate_status_envelope envelope =
    if is_empty (trim_space envelope.tenant_id)
    then some (txt "tenant_id is required")
    else if is_empty (trim_space envelope.project_id)
    then some (txt "project_id is required")
    else if is_empty (trim_space envelope.source_id)
    then some (txt "source_id is required")
    else if is_empty (trim_space envelope.id)
    then some (txt "event_id is required")
    else none

abbrev pub max_status_error_length : ℕ
max_status_error_length = 2048

-- The message of an error that is not nil.
unfoldable pub truncate_status_error : Error → Text
truncate_status_error message =
    if leb (length message) max_status_error_length
    then message
    else take max_status_error_length message

-- The row that a first claim inserts.
abbrev pub claimed_row : EventEnvelope → StatusRow
claimed_row envelope = record {
  status = ingestion_status_processing;
  attempt = 1;
  last_error = [];
  received_at = envelope.received_at;
}

abbrev pub any_row : StatusRow → Bool
any_row row = true

-- The assignments of the three `Updates` calls.
abbrev pub reclaimed : StatusRow → StatusRow
reclaimed row = record row {
  status = ingestion_status_processing;
  attempt = row.attempt + 1;
  last_error = [];
}

abbrev pub committed : StatusRow → StatusRow
committed row = record row { status = ingestion_status_inserted; last_error = [] }

unfoldable pub rolled_back : Error → StatusRow → StatusRow
unfolding truncate_status_error
rolled_back cause row = record row {
  status = ingestion_status_failed;
  last_error = truncate_status_error cause;
}

-- `ingestionStatusClaim`
pub record Claim : Type 0 where
  pub key : StatusKey
  pub already_inserted : Bool

module _ (t : StatusTable) where
  open t use {State, create, first, updates}

  abbrev pub fresh_claim : EventEnvelope → Bool → Option Claim
  fresh_claim envelope inserted =
      some (record { key = status_key_from_envelope envelope; already_inserted = inserted })

  reclaim_status : EventEnvelope → State → Fallible (Option Claim) × State
  reclaim_status envelope s =
      let (r, s') = updates (status_key_from_envelope envelope) any_row reclaimed s in
      elim r.error [ some e ↦ (err e, s') | none ↦ (ok (fresh_claim envelope false), s') ]

  -- The conflicting insert: the row that is there decides.
  existing_status : EventEnvelope → State → Fallible (Option Claim) × State
  unfolding reclaim_status
  existing_status envelope s =
      let (e, row, s') = first (status_key_from_envelope envelope) s in
      elim e [
        | some e ↦ (err e, s')
        | none ↦
            if text_beq row.status ingestion_status_inserted
            then (ok (fresh_claim envelope true), s')
            else reclaim_status envelope s'
      ]

  claim_row : EventEnvelope → State → Fallible (Option Claim) × State
  unfolding existing_status
  claim_row envelope s =
      let (r, s') = create (status_key_from_envelope envelope) (claimed_row envelope) s in
      elim r.error [
        | some e ↦ (err e, s')
        | none ↦
            if ltb 0 r.rows_affected
            then (ok (fresh_claim envelope false), s')
            else existing_status envelope s'
      ]

  unfoldable pub start_event_write : EventEnvelope → State → Fallible (Option Claim) × State
  unfolding claim_row
  start_event_write envelope s = elim (validate_status_envelope envelope) [
    | some e ↦ (err e, s)
    | none ↦ claim_row envelope s
  ]

  unfoldable pub commit : Claim → State → Option Error × State
  commit claim s =
      let (r, s') = updates claim.key any_row committed s in
      if claim.already_inserted then (none, s) else (r.error, s')

  unfoldable pub rollback : Claim → Error → State → Option Error × State
  rollback claim cause s =
      let (r, s') = updates claim.key any_row (rolled_back cause) s in
      if claim.already_inserted then (none, s) else (r.error, s')

-- The guard as an implementation of the interface.
abbrev pub ingestion_guard : StatusTable → WriteGuard
ingestion_guard t = record {
  State = t.State;
  Claim = Claim;
  start = start_event_write t;
  already_inserted = λ claim. claim.already_inserted;
  commit = commit t;
  rollback = rollback t;
}
