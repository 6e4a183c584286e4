-- ===== src/Lib.antt =====
-- Verification of analytics-core, a library that collects product events, carries them through a
-- queue, and stores them for analysis.
--
-- An event starts as a request. collect trims and validates it, makes an envelope of it
-- (contracts/event.go), passes it through stages (a traffic filter, resolvers of sessions and
-- visits, enrichment), and publishes it on an event bus. The Kafka provider (eventbus/kafka) hands
-- each message to a handler, retries it, writes it to a dead-letter topic in the end, and marks the
-- offsets of a partition in order. The handler writes the event to ClickHouse, behind a status row
-- in MySQL that remembers what is written; its properties follow as typed rows, behind a second
-- status row.
--
-- What models what:
--
-- - Prelude: Go's integers, strings and maps. An int64 or int32 is its bit pattern, a natural number
--   with the wrap-around written out (Words); a string is its list of bytes (Texts), with
--   strings.TrimSpace on the encodings of Unicode's white space (Trim); a map is an association list
--   (Maps).
-- - Contracts: EventEnvelope; times as nanoseconds since the start of the year 0.
-- - Collect.Request: collect/request.go and the ClientInfo of collect/client.go (Normalize is
--   `normalize`, and each validate function keeps its name). Collect.Digest: the rest of client.go.
--   Collect.Handler: handler.go and stage.go (Handle is `handle`, beside what it publishes).
--   Collect.Session: session.go (the two Apply methods are `resolve_session` and `resolve_visit`).
--   Collect.Enrichment: enrichment.go (Apply is `enrich`). Collect.TrafficFilter: traffic_filter.go
--   (Apply is `filter_traffic`). Collect.Pipeline: the stages together.
-- - Kafka.OrderedCommit: eventbus/kafka/ordered_commit.go, the committer of one topic-partition
--   (Register, Complete, AbortGeneration and RecordHighWaterMark are `register`, `complete`,
--   `abort_generation` and `record_high_water_mark`; a run is the list of the calls in the order in
--   which the mutex serves them). Kafka.Gate: completion_gate.go (AddTask, TaskDone and
--   NoAsyncTaskCompleteNow). Kafka.Delivery: the processing of one message in bus.go, from
--   processConsumerMessageWithHandler (`process`) down to publishDeadLetter. Kafka.Protector:
--   protector.go (observe, reconcile, and the keys that splitCommitKey reads).
-- - Storage.Backends: the tables that the adapters call, as interfaces with the laws of their
--   statements: a statement that answers no error is applied, one that answers an error is applied
--   or not. Storage.Memory has a table and a warehouse with these laws.
--   Storage.IngestionGuard: storage/mysql/ingestion_status_guard.go. Storage.BatchWriter: WriteEvent
--   of storage/clickhouse/batch_writer.go. Storage.Property: storage/property.go.
--   Storage.PropertyGuard: storage/mysql/property_indexing_status_guard.go. Storage.PropertyIndexing:
--   storage/property_indexing_writer.go.
-- - ClickHouse: the read side of storage/clickhouse, with what both sides share. Tables:
--   table_router.go. Schema: schema.go. Rows: the values of a row in batch_writer.go and
--   property_writer.go. EventQuery: storage/event_query.go. QueryPolicy, QueryScope and QueryPlans:
--   query_builder.go (BuildEventsQuery is `build_events_query`, and each other function keeps its
--   name; a GORM scope is the list of its clauses). EventReader: event_reader.go.
--   QueryScope.Matching says what a query asks of a stored event without the builder, and has SQL as
--   an interface; QueryScope.Listed and QueryScope.Selectable write out the allowlists, and which
--   property selectors a query may use. Columns is a
--   row by the names of its columns, and a scan of some of them; Interpreter and Memory are a reading
--   of SQL and a database with its laws. Rows.Stored is the way of a row from the writer to the
--   reader.
-- - EventBus: eventbus/eventbus.go. EventBus.Redis and EventBus.RedisStream:
--   eventbus/redisstream/redisstream.go (Subscribe is `subscribe_redis`, a sequence of `rounds`; the
--   body of the loop of consume is `process_message`, and each other function keeps its name; Redis
--   is an interface of what its commands answer, and the model notes what was acknowledged,
--   dead-lettered and read).
--   EventBus.Direct: eventbus/direct/direct.go. EventBus.Ingestion: ingestion/processor.go, and,
--   in Delivered, the processor over the writer of Storage.BatchWriter behind the Redis stream.
-- - Each Scenarios module has runs at concrete inputs.
--
-- Fuel: the loop of Complete deletes an offset in each round, so one more than the number of offsets
-- is enough. The loop over the attempts makes at most `max_attempts` rounds and has one more. The
-- loop of the dead-letter writes ends only when a write succeeds or the session is cancelled; its
-- fuel is an argument, and `live_session_completes` says when it is enough. The loop of a Redis
-- subscription ends only with its context or an error; its fuel is the number of rounds that are
-- looked at, and what is said of it holds for every number.
--
-- Parameters: the handler, JSON, cancellation, the broker and Redis (answers of an environment),
-- SHA-256, strconv.ParseFloat, the addresses of net/netip, the user-agent parser and the geo resolver that a
-- caller injects, json.Marshal, in Storage the routing of an event to a table; the statement that
-- GORM makes of a scope, the rows that the database answers, and the meaning of SQL comparisons.
--
-- Not modelled: the claim loop, Publish, the options and the worker pool of the Kafka provider, the
-- property catalog, the writer of property rows.
-- Nor are constructors that only reject nil arguments, statistics, connections, and the HTTP
-- adapter, which is glue to its framework. Concurrency is modelled where a lock or an atomic
-- operation makes the calls a sequence, which is then any sequence; each write of an event runs
-- alone.
pub mod Prelude
pub mod Contracts
pub mod Collect
pub mod Kafka
pub mod Storage
pub mod ClickHouse
pub mod EventBus
