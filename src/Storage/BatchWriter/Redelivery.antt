-- ===== src/Storage/BatchWriter/Redelivery.antt =====
-- storage/clickhouse/batch_writer.go over the guard of storage/mysql/ingestion_status_guard.go: an
-- event whose append is recorded is not appended again.
use analytics_core.Prelude.{
  ◌≡◌, refl, Bool, true, false, Option, none, some, txt, Bool-cases, Option-cases, inl, inr,
  is_empty,
}
use analytics_core.Contracts.{EventEnvelope}
use analytics_core.Storage.Backends.{Error, StatusTable, Warehouse, Fallible, ok, err}
use analytics_core.Storage.IngestionGuard.{
  Claim, status_key_from_envelope, ingestion_guard, start_event_write, commit, claimed_row,
  validate_status_envelope, fresh_claim,
}
use analytics_core.Storage.IngestionGuard.Claims.{
  has_row, IsInserted, Started, start-Started, commit-inserts, start-inserted,
}
use analytics_core.Storage.BatchWriter.{
  WriteResult, World, write_claimed_event, start_claim, commit_event_write, claimed_before,
  write_with_claim, write_event,
}

module _ (t : StatusTable) (w : Warehouse EventEnvelope) (route : EventEnvelope → Option Error)
    (marshal : EventEnvelope → Option Error) where
  abbrev Writer : Type 0
  Writer = World (ingestion_guard t) w true route marshal

  abbrev with_claim : EventEnvelope → Option Claim → Writer → Fallible WriteResult × Writer
  with_claim = write_with_claim (ingestion_guard t) w true route marshal

  abbrev inserted_result : Bool → Fallible WriteResult
  inserted_result b = ok (record { inserted = b })

  was_inserted : Fallible WriteResult → Bool
  was_inserted (ok r) = r.inserted
  was_inserted (err e) = false

  with_claim-records :
      (envelope : EventEnvelope) (claim : Claim) (world : Writer)
      → claim.key ≡ status_key_from_envelope envelope
      → has_row (t.row_of world.status (status_key_from_envelope envelope)) ≡ true
      → was_inserted (with_claim envelope (some claim) world).0 ≡ true
      → IsInserted t
          (with_claim envelope (some claim) world).1.status
          (status_key_from_envelope envelope)
  unfolding write_with_claim claimed_before commit_event_write was_inserted
  with_claim-records envelope claim world same there done =
      elim (Bool-cases claim.already_inserted) [
        | inl before ↦ absurd (cc (rw (before, write_with_claim) at done))
        | inr fresh ↦
            elim (Option-cases
              (write_claimed_event (ingestion_guard t) w true route marshal envelope
                world.store).0) [
                  | inr (e, failed) ↦
                      absurd (
                        cc
                          (rw (failed, write_with_claim) at (rw (fresh, write_with_claim) at done)))
                  | inl sent ↦ elim (Option-cases (commit t claim world.status).0) [
                    | inr (e, failed) ↦ absurd (
                        cc (
                          rw (failed, write_with_claim) at
                            (rw (sent, write_with_claim) at
                              (rw (fresh, write_with_claim) at done))))
                    | inl committed ↦
                        rw (fresh, write_with_claim)
                          (rw (sent, write_with_claim)
                            (cc (
                              commit-inserts t claim world.status fresh (rw same there) committed,
                              same,
                            )))
                  ]
                ]
      ]

  abbrev writes : EventEnvelope → Writer → Fallible WriteResult × Writer
  writes = write_event (ingestion_guard t) w true route marshal

  -- A write that answers that it inserted the event has given it an ID that is accepted, and has
  -- recorded it.
  record Recorded (envelope : EventEnvelope) (world : Writer) : Type 0 where
    named : is_empty envelope.id ≡ false
    valid : validate_status_envelope envelope ≡ none
    inserted : IsInserted t (writes envelope world).1.status (status_key_from_envelope envelope)

  invalid_stops :
      (envelope : EventEnvelope) (world : Writer) (e : Error)
      → validate_status_envelope envelope ≡ some e
      → was_inserted (writes envelope world).0 ≡ false
  unfolding write_event start_claim start_event_write was_inserted
  invalid_stops envelope world e invalid = elim (Bool-cases (is_empty envelope.id)) [
    | inl missing ↦ rw (missing, write_event) refl
    | inr given ↦ rw (given, write_event) (rw (invalid, start_event_write) refl)
  ]

  -- What follows the start of a guarded write.
  abbrev continue :
      EventEnvelope → Writer → Fallible (Option Claim) × t.State → Fallible WriteResult × Writer
  continue envelope world (err e, s) = (err e, record world { status = s })
  continue envelope world (ok none, s) =
      (err (txt "event write guard returned nil claim"), record world { status = s })
  continue envelope world (ok (some claim), s) =
      with_claim envelope (some claim) (record world { status = s })

  writes-continue :
      (envelope : EventEnvelope) (world : Writer)
      → is_empty envelope.id ≡ false
      → writes envelope world ≡ continue envelope world (start_event_write t envelope world.status)
  unfolding write_event start_claim
  writes-continue envelope world given =
      rw (given, write_event) (same (start_event_write t envelope world.status))
    where
      same :
          (r : Fallible (Option Claim) × t.State)
          → (let c : Fallible (Option Claim) × t.State = (elim r.0 [
            | err e ↦ (err e, r.1)
            | ok none ↦ (err (txt "event write guard returned nil claim"), r.1)
            | ok (some claim) ↦ (ok (some claim), r.1)
          ]) in
              elim c.0 [
                | err e ↦ (err e, record world { status = c.1 })
                | ok claim ↦ with_claim envelope claim (record world { status = c.1 })
              ])
            ≡ continue envelope world r
      same (err e, s) = refl
      same (ok none, s) = refl
      same (ok (some claim), s) = refl

  write-IsInserted :
      (envelope : EventEnvelope) (world : Writer)
      → is_empty envelope.id ≡ false
      → was_inserted (writes envelope world).0 ≡ true
      → IsInserted t (writes envelope world).1.status (status_key_from_envelope envelope)
  unfolding was_inserted
  write-IsInserted envelope world given done = rw (writes-continue envelope world given) (
      behind_claim (start_event_write t envelope world.status)
        (start-Started t envelope world.status) (rw (writes-continue envelope world given) at done))
    where
      behind_claim :
          (r : Fallible (Option Claim) × t.State)
          → Started t envelope world.status r
          → was_inserted (continue envelope world r).0 ≡ true
          → IsInserted t (continue envelope world r).1.status (status_key_from_envelope envelope)
      behind_claim (err e, s) started h = absurd (cc h)
      behind_claim (ok none, s) started h = absurd (cc h)
      behind_claim (ok (some claim), s) started h =
          with_claim-records envelope claim (record world { status = s }) started.claimed.0
            started.claimed.2 h

  write-Recorded :
      (envelope : EventEnvelope) (world : Writer)
      → was_inserted (writes envelope world).0 ≡ true
      → Recorded envelope world
  unfolding write_event was_inserted
  write-Recorded envelope world done = record {
    named = named;
    valid = elim (Option-cases (validate_status_envelope envelope)) [
      | inl valid ↦ valid
      | inr (e, invalid) ↦ absurd (cc (invalid_stops envelope world e invalid, done))
    ];
    inserted = write-IsInserted envelope world named done;
  }
    where
      named : is_empty envelope.id ≡ false
      named = elim (Bool-cases (is_empty envelope.id)) [
        | inr given ↦ given
        | inl missing ↦ absurd (cc (rw (missing, write_event) at done))
      ]

  -- A write of an event whose row says that it is inserted.
  write-skips :
      (envelope : EventEnvelope) (world : Writer)
      → is_empty envelope.id ≡ false
      → (start_event_write t envelope world.status).0 ≡ ok (fresh_claim t envelope true)
      → ((writes envelope world).0 ≡ inserted_result false)
        × ((writes envelope world).1.store ≡ world.store)
  unfolding write_with_claim claimed_before
  write-skips envelope world given claimed =
      rw (writes-continue envelope world given)
        (skips (start_event_write t envelope world.status) claimed)
    where
      skips :
          (r : Fallible (Option Claim) × t.State)
          → r.0 ≡ ok (fresh_claim t envelope true)
          → ((continue envelope world r).0 ≡ inserted_result false)
            × ((continue envelope world r).1.store ≡ world.store)
      skips (err e, s) h = absurd (cc h)
      skips (ok none, s) h = absurd (cc h)
      skips (ok (some claim), s) h =
          let before : claim.already_inserted ≡ true = cc h in
          rw (before, write_with_claim) (refl, refl)

  -- Once a guarded write has answered that it inserted an event, the next write of the same event
  -- answers that it inserted nothing and leaves the tables as they are, provided that the two
  -- statements of its claim answer no error.
  pub redelivery-skips :
      (envelope : EventEnvelope) (world : Writer)
      → (writes envelope world).0 ≡ inserted_result true
      → let k = status_key_from_envelope envelope in
        let world' = (writes envelope world).1 in
        let r = t.create k (claimed_row envelope) world'.status in
        r.0.error ≡ none
        → (t.first k r.1).0 ≡ none
        → ((writes envelope world').0 ≡ inserted_result false)
          × ((writes envelope world').1.store ≡ world'.store)
  unfolding was_inserted
  redelivery-skips envelope world done created found =
      let recorded = write-Recorded envelope world (rw done refl) in
      let world' = (writes envelope world).1 in
      write-skips envelope world' recorded.named
        (start-inserted t envelope world'.status recorded.valid recorded.inserted created found)
