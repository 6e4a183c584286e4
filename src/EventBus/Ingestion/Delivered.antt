-- ===== src/EventBus/Ingestion/Delivered.antt =====
-- The ingestion of a Redis stream into ClickHouse: eventbus/redisstream, ingestion/processor.go and
-- storage/clickhouse/batch_writer.go behind storage/mysql/ingestion_status_guard.go.
use analytics_core.Prelude.{◌≡◌, refl, Bool, Option, none, [], Text, ℕ}
use analytics_core.Contracts.{EventEnvelope}
use analytics_core.Storage.Backends.{Error, StatusTable, Warehouse, Fallible, ok, err}
use analytics_core.Storage.IngestionGuard.{status_key_from_envelope, ingestion_guard}
use analytics_core.Storage.BatchWriter.Written.{Stored}
use analytics_core.Storage.BatchWriter.Durable.{
  IsDurable, write_event-IsDurable, acknowledged-Stored,
}
use analytics_core.Storage.BatchWriter.Growing.{write-keeps}
use analytics_core.Storage.BatchWriter as BatchWriter
use analytics_core.Storage.BatchWriter.{WriteResult, start_claim, write_with_claim, write_event}
use analytics_core.EventBus.{ConsumerGroup, Message}
use analytics_core.EventBus.RedisStream.{World, subscribe_redis}
use analytics_core.EventBus.Redis.{Options, Redis}
use analytics_core.EventBus.RedisStream.Acknowledged.{Handles, IsSafe, subscribe-IsSafe}
use analytics_core.EventBus.Ingestion.{handle_message, error_of}

module _ (t : StatusTable) (w : Warehouse EventEnvelope) (guarded : Bool)
    (route : EventEnvelope → Option Error) (marshal : EventEnvelope → Option Error) where
  abbrev pub Writer : Type 0
  Writer = BatchWriter.World (ingestion_guard t) w guarded route marshal

  abbrev pub processor : Message → Writer → Option Error × Writer
  processor = handle_message (write_event (ingestion_guard t) w guarded route marshal)

  abbrev pub InTables : EventEnvelope → Writer → Type 0
  InTables e world = Stored (status_key_from_envelope e) (w.batches world.store)

  -- The handler answers nil only behind a result of the writer.
  nil-ok : {A : Type 0} (answer : Fallible A) → error_of answer ≡ none → (a : A) × (answer ≡ ok a)
  nil-ok (ok a) h = (a, refl)
  nil-ok (err e) h = absurd cc

  processor-Handles :
      (r : Redis) (unmarshal : Text → Fallible EventEnvelope) (opts : Options)
      (group : ConsumerGroup)
      → Handles r Writer processor unmarshal opts group
          (IsDurable t w guarded route marshal)
          InTables
  unfolding handle_message
  processor-Handles r unmarshal opts group = record {
    keeps =
        λ m world durable. write_event-IsDurable t w guarded route marshal m.envelope world durable;
    gains = λ m world durable nil.
        let (result, answered) = nil-ok _ nil in
        acknowledged-Stored t w guarded route marshal m.envelope world result durable answered;
    stays = λ m world e durable stored.
        write-keeps t w guarded route marshal m.envelope world (status_key_from_envelope e) stored;
  }

  -- A processor over the guarded batch writer, behind a Redis stream, starts with no
  -- acknowledgement and with every event in the tables whose status row says that it is inserted.
  -- However long it runs, and whatever Redis, MySQL and ClickHouse answer in the bounds of their
  -- interfaces, each message that it acknowledges has its event in the tables or is in a dead
  -- letter.
  pub ingest-IsSafe :
      (r : Redis) (unmarshal : Text → Fallible EventEnvelope) (opts : Options)
      (group : ConsumerGroup) (fuel : ℕ) (start : World r Writer processor unmarshal opts group)
      → IsDurable t w guarded route marshal start.handled
      → start.acks ≡ []
      → IsSafe r Writer processor unmarshal opts group
          (IsDurable t w guarded route marshal)
          InTables
          (subscribe_redis r Writer processor unmarshal opts group fuel start).1
  ingest-IsSafe r unmarshal opts group fuel start durable none_yet =
      subscribe-IsSafe r Writer processor unmarshal opts group (IsDurable t w guarded route marshal)
        InTables (processor-Handles r unmarshal opts group) fuel start
        (record { inv = durable; settled = rw none_yet tt })
