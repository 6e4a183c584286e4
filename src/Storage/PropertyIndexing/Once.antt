-- ===== src/Storage/PropertyIndexing/Once.antt =====
-- storage/property_indexing_writer.go over the guard of storage/mysql/property_indexing_status_guard.go:
-- the property rows of an event are appended once at most.
use analytics_core.Prelude.{
  ◌≡◌, refl, sym, ◌∙◌, Bool, true, false, Option, none, some, List, [], ◌∷◌, ◌++◌, All, Text, txt,
  if◌then◌else◌, Option-cases, inl, inr,
}
use analytics_core.Contracts.{EventEnvelope, Float}
use analytics_core.Storage.Backends.{Error, StatusTable, Warehouse, Fallible, ok, err}
use analytics_core.Storage.IngestionGuard.{Claim, status_key_from_envelope}
use analytics_core.Storage.PropertyGuard.{start_property_write, rollback_properties, property_guard}
use analytics_core.Storage.Property.{EventPropertyRecord, PropertyError, flatten_event_properties}
use analytics_core.Storage.PropertyGuard.Claims.{
  is_held, Started, start-Started, commit-Keeps, rollback-elsewhere,
}
use analytics_core.Storage.BatchWriter.{WriteResult}
use analytics_core.Storage.Property.Ownership.{record_key, Flat-cases, flatten-AreOf}
use analytics_core.Storage.PropertyIndexing.Counts.{
  OncePerEvent, count, Keeps-Once, free-count, append-Once, other-Once,
}
use analytics_core.Storage.PropertyIndexing.{
  EventWriter, IndexWorld, rollback_property_write, write_claimed_properties, claim_and_write,
  write_flattened, write_indexed_event,
}

module _ (t : StatusTable) where
  module _ (events : EventWriter) (w : Warehouse (List EventPropertyRecord))
      (parse_float : Text → Option Float) (message_of : PropertyError → Error) where
    abbrev Indexer : Type 0
    Indexer = IndexWorld events (property_guard t) w parse_float message_of

    abbrev pub IsOnce : Indexer → Type 0
    IsOnce world = OncePerEvent t world.status (w.batches world.store)

    -- A send that answers an error has not been applied.
    abbrev pub IsAtomic : Type 0
    IsAtomic =
        (b : List EventPropertyRecord) (s : w.State) (e : Error)
        → (w.send b s).0 ≡ some e
        → w.batches (w.send b s).1 ≡ w.batches s

    rolls-status :
        (claim : Claim) (cause : Error) (s : t.State)
        → (rollback_property_write events
            (property_guard t)
            w
            parse_float
            message_of
            claim
            cause
            s).1
          ≡ (rollback_properties t claim cause s).1
    unfolding rollback_property_write
    rolls-status claim cause s = elim (Option-cases (rollback_properties t claim cause s).0) [
      | inl done ↦ rw (done, rollback_property_write) refl
      | inr (e, failed) ↦ rw (failed, rollback_property_write) refl
    ]

    claimed-Once :
        (r : EventPropertyRecord) (rs : List EventPropertyRecord) (result : WriteResult)
        (claim : Claim) (world : Indexer)
        → IsAtomic
        → IsOnce world
        → claim.key ≡ record_key r
        → count (record_key r) (w.batches world.store) ≡ 0
        → is_held (t.row_of world.status (record_key r)) ≡ true
        → IsOnce
            (write_claimed_properties events
              (property_guard t)
              w
              parse_float
              message_of
              (r ∷ rs)
              result
              claim
              world).1
    unfolding write_claimed_properties rollback_property_write
    claimed-Once r rs result claim world atomic h key none_is held =
        elim (Option-cases (w.send (r ∷ rs) world.store).0) [
          | inl done ↦
              rw (done, write_claimed_properties, IsOnce)
                (rw (w.send_applies (r ∷ rs) world.store done) (
                  Keeps-Once t world.status _ _ (commit-Keeps t claim world.status)
                    (append-Once t world.status (w.batches world.store) r rs h none_is held)))
          | inr (e, failed) ↦
              rw (failed, write_claimed_properties, IsOnce)
                (rw
                  (
                    atomic (r ∷ rs) world.store e failed,
                    rolls-status claim (txt "write event properties: " ++ e) world.status,
                  )
                  (other-Once t world.status _ (w.batches world.store) claim.key h
                    (cc (key, none_is))
                    (rollback-elsewhere t claim (txt "write event properties: " ++ e)
                      world.status)))
        ]

    abbrev continue :
        EventPropertyRecord
        → List EventPropertyRecord
        → WriteResult
        → Indexer
        → Fallible (Option Claim) × t.State
        → Fallible WriteResult × Indexer
    continue r rs result world (err e, s) = (err e, record world { status = s })
    continue r rs result world (ok none, s) =
        (err (txt "property write guard returned nil claim"), record world { status = s })
    continue r rs result world (ok (some claim), s) =
        if claim.already_inserted
        then (ok result, record world { status = s })
        else write_claimed_properties events (property_guard t) w parse_float message_of (r ∷ rs)
            result claim (record world { status = s })

    claim_and_write-continue :
        (envelope : EventEnvelope) (r : EventPropertyRecord) (rs : List EventPropertyRecord)
        (result : WriteResult) (world : Indexer)
        → claim_and_write events
            (property_guard t)
            w
            parse_float
            message_of
            envelope
            (r ∷ rs)
            result
            world
          ≡ continue r rs result world (start_property_write t envelope world.status)
    unfolding claim_and_write
    claim_and_write-continue envelope r rs result world =
        same (start_property_write t envelope world.status)
      where
        same :
            (q : Fallible (Option Claim) × t.State)
            → (elim q.0 as (λ x. Fallible WriteResult × Indexer) [
              | err e ↦ (err e, record world { status = q.1 })
              | ok none ↦ (
                err (txt "property write guard returned nil claim"),
                record world { status = q.1 },
              )
              | ok (some claim) ↦
                  if claim.already_inserted
                  then (ok result, record world { status = q.1 })
                  else write_claimed_properties events
                      (property_guard t)
                      w
                      parse_float
                      message_of
                      (r ∷ rs)
                      result
                      claim
                      (record world { status = q.1 })
            ])
              ≡ continue r rs result world q
        same (err e, s) = refl
        same (ok none, s) = refl
        same (ok (some claim), s) = refl

    if-Once :
        (test : Bool) (x y : Fallible WriteResult × Indexer)
        → IsOnce x.1
        → (test ≡ false → IsOnce y.1)
        → IsOnce (if test then x else y).1
    if-Once true x y h k = h
    if-Once false x y h k = k refl

    continue-Once :
        (envelope : EventEnvelope) (r : EventPropertyRecord) (rs : List EventPropertyRecord)
        (result : WriteResult) (world : Indexer) (q : Fallible (Option Claim) × t.State)
        → IsAtomic
        → IsOnce world
        → record_key r ≡ status_key_from_envelope envelope
        → Started t envelope world.status q
        → IsOnce (continue r rs result world q).1
    continue-Once envelope r rs result world (err e, s) atomic h key started =
        Keeps-Once t world.status s (w.batches world.store) started.keeps h
    continue-Once envelope r rs result world (ok none, s) atomic h key started =
        Keeps-Once t world.status s (w.batches world.store) started.keeps h
    continue-Once envelope r rs result world (ok (some claim), s) atomic h key started =
        let kept = Keeps-Once t world.status s (w.batches world.store) started.keeps h in
        if-Once claim.already_inserted (ok result, record world { status = s }) _ kept
          (λ fresh.
            let (named, free, held) = started.fresh fresh in
            claimed-Once r rs result claim (record world { status = s }) atomic kept
              (named ∙ sym key)
              (free-count t world.status (w.batches world.store) (record_key r) h (cc (key, free)))
              (cc (key, held)))

    flattened-Once :
        (envelope : EventEnvelope) (records : List EventPropertyRecord) (world : Indexer)
        → IsAtomic
        → IsOnce world
        → All (λ r. record_key r ≡ status_key_from_envelope envelope) records
        → IsOnce
            (write_flattened events
              (property_guard t)
              w
              parse_float
              message_of
              envelope
              records
              world).1
    unfolding write_flattened
    flattened-Once envelope records world atomic h are =
        after (events.write envelope world.primary) records are
      where
        after :
            (q : Fallible WriteResult × events.State) (rs : List EventPropertyRecord)
            → All (λ r. record_key r ≡ status_key_from_envelope envelope) rs
            → IsOnce
                (elim q.0 as (λ x. Fallible WriteResult × Indexer) [
                  | err e ↦ (err e, record world { primary = q.1 })
                  | ok result ↦ elim rs [
                    | [] ↦ (ok result, record world { primary = q.1 })
                    | r ∷ more ↦
                        claim_and_write events
                          (property_guard t)
                          w
                          parse_float
                          message_of
                          envelope
                          (r ∷ more)
                          result
                          (record world { primary = q.1 })
                  ]
                ]).1
        after (err e, s) rs a = h
        after (ok result, s) [] a = h
        after (ok result, s) (r ∷ rs) a =
            rw (claim_and_write-continue envelope r rs result (record world { primary = s })) (
              continue-Once envelope r rs result (record world { primary = s })
                (start_property_write t envelope world.status) atomic h a.0
                (start-Started t envelope world.status))

    -- If each event has one batch of property rows at most, and the row that guards it has not
    -- failed if it has one, that is so after a write of any event, whatever the event writer
    -- answers and whatever statement of the guard fails, provided that a batch whose send answers
    -- an error has not been applied.
    pub write-IsOnce :
        (envelope : EventEnvelope) (world : Indexer)
        → IsAtomic
        → IsOnce world
        → IsOnce
            (write_indexed_event events
              (property_guard t)
              w
              parse_float
              message_of
              envelope
              world).1
    unfolding write_indexed_event
    write-IsOnce envelope world atomic h =
        elim (Flat-cases (flatten_event_properties parse_float envelope)) [
          | inr (e, bad) ↦ rw (bad, write_indexed_event, IsOnce) h
          | inl (records, flat) ↦
              rw (flat, write_indexed_event)
                (flattened-Once envelope records world atomic h
                  (rw flat at (flatten-AreOf parse_float envelope)))
        ]
