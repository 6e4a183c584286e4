-- ===== src/Storage/BatchWriter.antt =====
-- storage/clickhouse/batch_writer.go: one event through a guard and a native batch.
pub mod Durable
pub mod Growing
pub mod Written
pub mod Redelivery
use analytics_core.Prelude.{
  ℕ, Bool, true, false, not, Option, none, some, List, [], ◌∷◌, ◌++◌, Text, txt, is_empty,
  if◌then◌else◌,
}
use analytics_core.Contracts.{EventEnvelope}
use analytics_core.Storage.Backends.{Error, Fallible, ok, err, WriteGuard, Warehouse}

-- `storage.WriteResult`
pub record WriteResult : Type 0 where
  pub inserted : Bool

-- `errors.Join` of two errors.
abbrev pub join : Error → Error → Error
join a b = a ++ 10 ∷ b

-- The row that a batch appends is made of the whole envelope; routing it to a table and marshalling
-- its maps may fail, as `route` and `marshal` say.
module _ (g : WriteGuard) (w : Warehouse EventEnvelope) (guarded : Bool)
    (route : EventEnvelope → Option Error) (marshal : EventEnvelope → Option Error) where
  pub record World : Type 0 where
    pub status : g.State
    pub store : w.State

  -- The last steps of `writeClaimedEvent`; an abort changes nothing.
  pub send_batch : EventEnvelope → w.State → Option Error × w.State
  send_batch envelope s =
      let (e, s') = w.append envelope s in
      elim e [ some e ↦ (some e, s') | none ↦ w.send envelope s' ]

  unfoldable pub write_claimed_event : EventEnvelope → w.State → Option Error × w.State
  unfolding send_batch
  write_claimed_event envelope s = elim (route envelope) [
    | some e ↦ (some e, s)
    | none ↦
        let (e, s') = w.prepare envelope s in
        elim e [
          | some e ↦ (some e, s')
          | none ↦ elim (marshal envelope) [ some e ↦ (some e, s') | none ↦ send_batch envelope s' ]
        ]
  ]

  -- `startEventWrite`: no claim without a guard.
  pub start_claim : EventEnvelope → g.State → Fallible (Option g.Claim) × g.State
  start_claim envelope s =
      let (r, s') = g.start envelope s in
      if not guarded then (ok none, s) else elim r [
        | err e ↦ (err e, s')
        | ok none ↦ (err (txt "event write guard returned nil claim"), s')
        | ok (some claim) ↦ (ok (some claim), s')
      ]

  pub rollback_event_write : Option g.Claim → Error → g.State → Error × g.State
  rollback_event_write none cause s = (cause, s)
  rollback_event_write (some claim) cause s =
      let (e, s') = g.rollback claim cause s in
      elim e [ some e ↦ (join cause e, s') | none ↦ (cause, s') ]

  pub commit_event_write : Option g.Claim → g.State → Option Error × g.State
  commit_event_write none s = (none, s)
  commit_event_write (some claim) s = g.commit claim s

  pub claimed_before : Option g.Claim → Bool
  claimed_before none = false
  claimed_before (some claim) = g.already_inserted claim

  -- The part of `WriteEvent` behind the claim.
  pub write_with_claim : EventEnvelope → Option g.Claim → World → Fallible WriteResult × World
  unfolding rollback_event_write commit_event_write claimed_before
  write_with_claim envelope claim world =
      let (sent, store) = write_claimed_event envelope world.store in
      if claimed_before claim then (ok (record { inserted = false }), world) else elim sent [
        | some cause ↦
            let (e, status) = rollback_event_write claim cause world.status in
            (err e, record { status = status; store = store })
        | none ↦
            let (e, status) = commit_event_write claim world.status in
            (
              elim e [ some e ↦ err e | none ↦ ok (record { inserted = true }) ],
              record { status = status; store = store },
            )
      ]

  unfoldable pub write_event : EventEnvelope → World → Fallible WriteResult × World
  unfolding start_claim write_with_claim
  write_event envelope world =
      let (r, status) = start_claim envelope world.status in
      if is_empty envelope.id then (err (txt "event_id is required"), world) else elim r [
        | err e ↦ (err e, record world { status = status })
        | ok claim ↦ write_with_claim envelope claim (record world { status = status })
      ]
