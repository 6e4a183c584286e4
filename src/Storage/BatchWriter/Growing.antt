-- ===== src/Storage/BatchWriter/Growing.antt =====
-- storage/clickhouse/batch_writer.go: a write keeps the events that are in the tables.
use analytics_core.Prelude.{◌≡◌, ◌⊎◌, inl, inr, Bool, Option, arith, sym}
use mathlib.Core.Path.{subst}
use analytics_core.Contracts.{EventEnvelope}
use analytics_core.Storage.Backends.{Error, StatusKey, StatusTable, Warehouse, Fallible}
use analytics_core.Storage.IngestionGuard.{ingestion_guard}
use analytics_core.Storage.BatchWriter.Written.{Stored, writes, write-Written}
use analytics_core.Storage.BatchWriter.{WriteResult, World, write_with_claim, write_event}

module _ (t : StatusTable) (w : Warehouse EventEnvelope) (guarded : Bool)
    (route : EventEnvelope → Option Error) (marshal : EventEnvelope → Option Error) where
  abbrev Writer : Type 0
  Writer = World (ingestion_guard t) w guarded route marshal

  abbrev write : EventEnvelope → Writer → Fallible WriteResult × Writer
  write = write_event (ingestion_guard t) w guarded route marshal

  -- A write leaves the tables, or does to them what the batch does.
  store-after :
      (e : EventEnvelope) (world : Writer)
      → ((write e world).1.store ≡ world.store)
        ⊎ ((write e world).1.store ≡ (writes t w guarded route marshal e world.store).1)
  unfolding write_event write_with_claim
  store-after e world = ground arith

  -- A write keeps what is stored, whatever fails in it.
  pub write-keeps :
      (e : EventEnvelope) (world : Writer) (k : StatusKey)
      → Stored k (w.batches world.store)
      → Stored k (w.batches (write e world).1.store)
  write-keeps e world k stored = elim (store-after e world) [
    | inl same ↦ subst (λ s. Stored k (w.batches s)) (sym same) stored
    | inr written ↦
        subst (λ s. Stored k (w.batches s)) (sym written)
          ((write-Written t w guarded route marshal e world.store).keeps k stored)
  ]
