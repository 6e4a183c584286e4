-- ===== src/Storage/PropertyGuard.antt =====
-- storage/mysql/property_indexing_status_guard.go: the status row that guards the append of an
-- event's property rows. A row in processing is ambiguous and never reclaimed.
pub mod Claims
use analytics_core.Prelude.{
  ℕ, Bool, true, false, not, Option, none, some, ◌∷◌, ◌++◌, ◌==◌, ltb, Text, txt, text_beq,
  if◌then◌else◌,
}
use analytics_core.Contracts.{EventEnvelope}
use analytics_core.Storage.Backends.{Error, StatusRow, StatusTable, Fallible, ok, err, WriteGuard}
use analytics_core.Storage.IngestionGuard.{
  Claim, validate_status_envelope, status_key_from_envelope, claimed_row, any_row, reclaimed,
  committed, rolled_back, ingestion_status_inserted, ingestion_status_failed,
}

abbrev pub is_failed : StatusRow → Bool
is_failed row = text_beq row.status ingestion_status_failed

-- The verb `%q`: a status is written between quotes, and has nothing to escape.
abbrev pub not_reclaimable : Text → Error
not_reclaimable status =
    txt "property indexing status " ++ 34 ∷ status ++ 34 ∷ txt " is not reclaimable"

module _ (t : StatusTable) where
  open t use {State, create, first, updates}

  abbrev pub property_claim : EventEnvelope → Bool → Option Claim
  property_claim envelope inserted =
      some (record { key = status_key_from_envelope envelope; already_inserted = inserted })

  -- `reclaimFailedStatus`, and the claim that follows it.
  unfoldable pub reclaim_failed_status : EventEnvelope → State → Fallible (Option Claim) × State
  reclaim_failed_status envelope s =
      let (r, s') = updates (status_key_from_envelope envelope) is_failed reclaimed s in
      elim r.error [
        | some e ↦ (err e, s')
        | none ↦
            if not (r.rows_affected == 1)
            then (err (txt "property indexing status was not reclaimed"), s')
            else (ok (property_claim envelope false), s')
      ]

  unfoldable pub existing_property_status : EventEnvelope → State → Fallible (Option Claim) × State
  unfolding reclaim_failed_status
  existing_property_status envelope s =
      let (e, row, s') = first (status_key_from_envelope envelope) s in
      elim e [
        | some e ↦ (err e, s')
        | none ↦
            if text_beq row.status ingestion_status_inserted
            then (ok (property_claim envelope true), s')
            else if not (is_failed row)
            then (err (not_reclaimable row.status), s')
            else reclaim_failed_status envelope s'
      ]

  unfoldable pub claim_property_row : EventEnvelope → State → Fallible (Option Claim) × State
  unfolding existing_property_status
  claim_property_row envelope s =
      let (r, s') = create (status_key_from_envelope envelope) (claimed_row envelope) s in
      elim r.error [
        | some e ↦ (err e, s')
        | none ↦
            if ltb 0 r.rows_affected
            then (ok (property_claim envelope false), s')
            else existing_property_status envelope s'
      ]

  unfoldable pub start_property_write : EventEnvelope → State → Fallible (Option Claim) × State
  unfolding claim_property_row
  start_property_write envelope s = elim (validate_status_envelope envelope) [
    | some e ↦ (err e, s)
    | none ↦ claim_property_row envelope s
  ]

  unfoldable pub commit_properties : Claim → State → Option Error × State
  commit_properties claim s =
      let (r, s') = updates claim.key any_row committed s in
      if claim.already_inserted then (none, s) else (r.error, s')

  unfoldable pub rollback_properties : Claim → Error → State → Option Error × State
  rollback_properties claim cause s =
      let (r, s') = updates claim.key any_row (rolled_back cause) s in
      if claim.already_inserted then (none, s) else (r.error, s')

-- The guard as an implementation of the interface.
abbrev pub property_guard : StatusTable → WriteGuard
property_guard t = record {
  State = t.State;
  Claim = Claim;
  start = start_property_write t;
  already_inserted = λ claim. claim.already_inserted;
  commit = commit_properties t;
  rollback = rollback_properties t;
}
