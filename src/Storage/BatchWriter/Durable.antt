-- ===== src/Storage/BatchWriter/Durable.antt =====
-- storage/clickhouse/batch_writer.go over the guard of storage/mysql/ingestion_status_guard.go: no
-- row is recorded as inserted without its event in the tables.
use analytics_core.Prelude.{
  ◌≡◌, ◌⊎◌, ◌∙◌, refl, Bool, true, false, Option, none, some, txt, Bool-cases, Option-cases, inl,
  inr, is_empty,
}
use analytics_core.Contracts.{EventEnvelope}
use analytics_core.Storage.Backends.{Error, StatusKey, StatusTable, Warehouse, Fallible, ok, err}
use analytics_core.Storage.IngestionGuard.{
  Claim, status_key_from_envelope, ingestion_guard, start_event_write, rollback,
}
use analytics_core.Storage.IngestionGuard.Claims.{
  has_row, IsInserted, InsertsNothing, Started, start-Started, rollback-InsertsNothing,
  commit-IsInserted,
}
use analytics_core.Storage.BatchWriter.Written.{Stored, writes, write-Written}
use analytics_core.Storage.BatchWriter.{
  WriteResult, World, start_claim, rollback_event_write, commit_event_write, claimed_before,
  write_with_claim, write_event,
}

module _ (t : StatusTable) (w : Warehouse EventEnvelope) (guarded : Bool)
    (route : EventEnvelope → Option Error) (marshal : EventEnvelope → Option Error) where
  abbrev Writer : Type 0
  Writer = World (ingestion_guard t) w guarded route marshal

  abbrev with_claim : EventEnvelope → Option Claim → Writer → Fallible WriteResult × Writer
  with_claim = write_with_claim (ingestion_guard t) w guarded route marshal

  -- Every event that is recorded as inserted is in the tables.
  abbrev pub IsDurable : Writer → Type 0
  IsDurable world = (k : StatusKey) → IsInserted t world.status k → Stored k (w.batches world.store)

  abbrev ClaimHolds : EventEnvelope → Option Claim → Writer → Type 0
  ClaimHolds envelope none world = Unit
  ClaimHolds envelope (some claim) world =
      (claim.key ≡ status_key_from_envelope envelope)
      × (claim.already_inserted ≡ true
          → IsInserted t world.status (status_key_from_envelope envelope))
      × (has_row (t.row_of world.status (status_key_from_envelope envelope)) ≡ true)

  abbrev IsOk : Fallible WriteResult → Type 0
  IsOk (ok r) = Unit
  IsOk (err e) = ⊥

  record Kept (envelope : EventEnvelope) (r : Fallible WriteResult × Writer) : Type 0 where
    durable : IsDurable r.1
    stored : IsOk r.0 → Stored (status_key_from_envelope envelope) (w.batches r.1.store)

  abbrev rolls : Option Claim → Error → t.State → Error × t.State
  rolls = rollback_event_write (ingestion_guard t) w guarded route marshal

  abbrev commits : Option Claim → t.State → Option Error × t.State
  commits = commit_event_write (ingestion_guard t) w guarded route marshal

  rolls-InsertsNothing :
      (claim : Option Claim) (cause : Error) (s : t.State)
      → InsertsNothing t s (rolls claim cause s).1
  unfolding rollback_event_write
  rolls-InsertsNothing none cause s = λ j h. h
  rolls-InsertsNothing (some claim) cause s =
      let quiet = rollback-InsertsNothing t claim cause s in
      elim (Option-cases (rollback t claim cause s).0) [
        | inl done ↦ rw (done, rollback_event_write) quiet
        | inr (e, failed) ↦ rw (failed, rollback_event_write) quiet
      ]

  commits-IsInserted :
      (envelope : EventEnvelope) (claim : Option Claim) (world : Writer) (j : StatusKey)
      → ClaimHolds envelope claim world
      → IsInserted t (commits claim world.status).1 j
      → (j ≡ status_key_from_envelope envelope) ⊎ IsInserted t world.status j
  unfolding commit_event_write
  commits-IsInserted envelope none world j holds h = inr h
  commits-IsInserted envelope (some claim) world j holds h =
      elim (commit-IsInserted t claim world.status j h) [
        | inl same ↦ inl (same ∙ holds.0)
        | inr before ↦ inr before
      ]

  -- Behind a claim that is not inserted yet.
  fresh-Kept :
      (envelope : EventEnvelope) (claim : Option Claim) (world : Writer)
      → IsDurable world
      → ClaimHolds envelope claim world
      → claimed_before (ingestion_guard t) w guarded route marshal claim ≡ false
      → Kept envelope (with_claim envelope claim world)
  unfolding write_with_claim
  fresh-Kept envelope claim world h holds fresh =
      let written = write-Written t w guarded route marshal envelope world.store in
      elim (Option-cases (writes t w guarded route marshal envelope world.store).0) [
        | inr (cause, failed) ↦
            rw (fresh, write_with_claim)
              (rw (failed, write_with_claim)
                (record {
                  durable = λ k at.
                      written.keeps k (h k (rolls-InsertsNothing claim cause world.status k at));
                  stored = λ good. absurd good;
                }))
        | inl done ↦
            rw (fresh, write_with_claim)
              (rw (done, write_with_claim)
                (record {
                  durable = λ k at. elim (commits-IsInserted envelope claim world k holds at) [
                    | inl same ↦ rw same (written.gains done)
                    | inr before ↦ written.keeps k (h k before)
                  ];
                  stored = λ good. written.gains done;
                }))
      ]

  with_claim-Kept :
      (envelope : EventEnvelope) (claim : Option Claim) (world : Writer)
      → IsDurable world
      → ClaimHolds envelope claim world
      → Kept envelope (with_claim envelope claim world)
  unfolding write_with_claim claimed_before
  with_claim-Kept envelope none world h holds = fresh-Kept envelope none world h tt refl
  with_claim-Kept envelope (some claim) world h holds = elim (Bool-cases claim.already_inserted) [
    | inr fresh ↦ fresh-Kept envelope (some claim) world h holds fresh
    | inl inserted ↦
        rw (inserted, write_with_claim)
          (record {
            durable = h;
            stored = λ good. h (status_key_from_envelope envelope) (holds.1 inserted);
          })
  ]

  abbrev pub claims : EventEnvelope → t.State → Fallible (Option Claim) × t.State
  claims = start_claim (ingestion_guard t) w guarded route marshal

  -- What the claim of an event does to the status rows.
  pub claims-Started :
      (envelope : EventEnvelope) (s : t.State) → Started t envelope s (claims envelope s)
  unfolding start_claim
  claims-Started envelope s = elim (Bool-cases guarded) [
    | inr off ↦ rw (off, start_claim) (record { nothing = λ j h. h; claimed = tt })
    | inl on ↦
        rw (on, start_claim)
          (guard_start (start_event_write t envelope s) (start-Started t envelope s))
  ]
    where
      guard_start :
          (r : Fallible (Option Claim) × t.State)
          → Started t envelope s r
          → Started t envelope s (elim r.0 [
            | err e ↦ (err e, r.1)
            | ok none ↦ (err (txt "event write guard returned nil claim"), r.1)
            | ok (some claim) ↦ (ok (some claim), r.1)
          ])
      guard_start (err e, s') h = h
      guard_start (ok none, s') h = record { nothing = h.nothing; claimed = tt }
      guard_start (ok (some claim), s') h = h

  write_event-Kept :
      (envelope : EventEnvelope) (world : Writer)
      → IsDurable world
      → Kept envelope (write_event (ingestion_guard t) w guarded route marshal envelope world)
  unfolding write_event
  write_event-Kept envelope world h = elim (Bool-cases (is_empty envelope.id)) [
    | inl missing ↦ rw (missing, write_event) (record { durable = h; stored = λ good. absurd good })
    | inr given ↦
        rw (given, write_event)
          (behind_claim (claims envelope world.status) (claims-Started envelope world.status))
  ]
    where
      behind_claim :
          (r : Fallible (Option Claim) × t.State)
          → Started t envelope world.status r
          → Kept envelope (elim r.0 [
            | err e ↦ (err e, record world { status = r.1 })
            | ok claim ↦ with_claim envelope claim (record world { status = r.1 })
          ])
      behind_claim (err e, s) started = record {
        durable = λ k at. h k (started.nothing k at);
        stored = λ good. absurd good;
      }
      behind_claim (ok none, s) started =
          with_claim-Kept envelope none (record world { status = s })
            (λ k at. h k (started.nothing k at)) tt
      behind_claim (ok (some claim), s) started =
          with_claim-Kept envelope (some claim) (record world { status = s })
            (λ k at. h k (started.nothing k at)) started.claimed

  -- If every event whose status row says that it is inserted is in the tables, that is so after a
  -- write of any event, whatever fails in it.
  pub write_event-IsDurable :
      (envelope : EventEnvelope) (world : Writer)
      → IsDurable world
      → IsDurable (write_event (ingestion_guard t) w guarded route marshal envelope world).1
  write_event-IsDurable envelope world h = (write_event-Kept envelope world h).durable

  -- In such a state, a write that answers with no error, as inserted or as inserted before, leaves
  -- an event of the same key in the tables: no acknowledged event is missing.
  pub acknowledged-Stored :
      (envelope : EventEnvelope) (world : Writer) (result : WriteResult)
      → IsDurable world
      → (write_event (ingestion_guard t) w guarded route marshal envelope world).0 ≡ ok result
      → Stored (status_key_from_envelope envelope) (
          w.batches
            (write_event (ingestion_guard t) w guarded route marshal envelope world).1.store)
  acknowledged-Stored envelope world result h done =
      (write_event-Kept envelope world h).stored (rw done tt)
