-- ===== src/Storage/PropertyIndexing.antt =====
-- storage/property_indexing_writer.go: the event row, and then its property rows.
pub mod Counts
pub mod Once
use analytics_core.Prelude.{
  ℕ, Bool, true, false, Option, none, some, List, [], ◌∷◌, ◌++◌, Text, txt, if◌then◌else◌,
}
use analytics_core.Contracts.{EventEnvelope, Float}
use analytics_core.Storage.Backends.{Error, Fallible, ok, err, WriteGuard, Warehouse}
use analytics_core.Storage.BatchWriter.{WriteResult, join}
use analytics_core.Storage.Property.{
  Flat, rows, fails, EventPropertyRecord, PropertyError, flatten_event_properties,
}

-- `storage.EventWriter`
pub record EventWriter : Type 1 where
  pub State : Type 0
  pub write : EventEnvelope → State → Fallible WriteResult × State

-- `message_of` is the text of a flattening error.
module _ (events : EventWriter) (g : WriteGuard) (w : Warehouse (List EventPropertyRecord))
    (parse_float : Text → Option Float) (message_of : PropertyError → Error) where
  pub record IndexWorld : Type 0 where
    pub primary : events.State
    pub status : g.State
    pub store : w.State

  pub rollback_property_write : g.Claim → Error → g.State → Error × g.State
  rollback_property_write claim cause s =
      let (e, s') = g.rollback claim cause s in
      elim e [ some e ↦ (join cause e, s') | none ↦ (cause, s') ]

  -- The property rows, behind a claim that is not inserted yet.
  pub write_claimed_properties :
      List EventPropertyRecord
      → WriteResult
      → g.Claim
      → IndexWorld
      → Fallible WriteResult × IndexWorld
  unfolding rollback_property_write
  write_claimed_properties records result claim world =
      let (sent, store) = w.send records world.store in
      elim sent [
        | some cause ↦
            let (e, status) =
              rollback_property_write claim (txt "write event properties: " ++ cause)
                world.status in
            (err e, record world { status = status; store = store })
        | none ↦
            let (e, status) = g.commit claim world.status in
            (
              elim e [ some e ↦ err e | none ↦ ok result ],
              record world { status = status; store = store },
            )
      ]

  pub claim_and_write :
      EventEnvelope
      → List EventPropertyRecord
      → WriteResult
      → IndexWorld
      → Fallible WriteResult × IndexWorld
  unfolding write_claimed_properties
  claim_and_write envelope records result world =
      let (r, status) = g.start envelope world.status in
      let claimed : IndexWorld = record world { status = status } in
      elim r [
        | err e ↦ (err e, claimed)
        | ok none ↦ (err (txt "property write guard returned nil claim"), claimed)
        | ok (some claim) ↦
            if g.already_inserted claim
            then (ok result, claimed)
            else write_claimed_properties records result claim claimed
      ]

  -- What follows the flattening.
  pub write_flattened :
      EventEnvelope → List EventPropertyRecord → IndexWorld → Fallible WriteResult × IndexWorld
  unfolding claim_and_write
  write_flattened envelope records world =
      let (r, primary) = events.write envelope world.primary in
      let written : IndexWorld = record world { primary = primary } in
      elim r [
        | err e ↦ (err e, written)
        | ok result ↦ elim records [
          | [] ↦ (ok result, written)
          | r ∷ rs ↦ claim_and_write envelope (r ∷ rs) result written
        ]
      ]

  unfoldable pub write_indexed_event :
      EventEnvelope → IndexWorld → Fallible WriteResult × IndexWorld
  unfolding write_flattened
  write_indexed_event envelope world = elim (flatten_event_properties parse_float envelope) [
    | fails e ↦ (err (message_of e), world)
    | rows records ↦ write_flattened envelope records world
  ]
