-- ===== src/EventBus/Scenarios.antt =====
-- Runs of the event buses: a Redis whose reads answer what a list says and which takes every entry.
use analytics_core.Prelude.{
  ℕ, suc, ◌≡◌, refl, true, Option, none, some, List, [], ◌∷◌, Text, txt, text_beq, lookup, insert,
  trim_space, if◌then◌else◌,
}
use analytics_core.Contracts.{EventEnvelope, ℤ, pos}
use analytics_core.Collect.Scanning.{contains}
use analytics_core.Storage.Backends.{Error, Fallible, ok, err, key_beq}
use analytics_core.Storage.IngestionGuard.{
  start_event_write, commit, rollback, validate_status_envelope,
}
use analytics_core.Storage.Memory.{
  create_row, first_row, update_row, ask, send, Answers, memory_table, memory_warehouse,
}
use analytics_core.Storage.BatchWriter.Durable.{IsDurable}
use analytics_core.Storage.BatchWriter.{write_event, write_claimed_event}
use analytics_core.Storage.Scenarios.{purchase, accepts, start_world, empty-IsDurable}
use analytics_core.EventBus.{ConsumerGroup, Message}
use analytics_core.EventBus.Direct.{new_direct_bus, publish_direct, direct_message}
use analytics_core.EventBus.Direct.Ordered.{Delivered, subscribed, publish-Delivered}
use analytics_core.EventBus.RedisStream.{
  World, Ending, process_messages, subscribe_redis, decode, handle_failure, process_message,
  consumed, consume, round, rounds, delivery_attempt,
}
use analytics_core.EventBus.Redis.{
  Options, payload, StreamMessage, ReadAnswer, nothing, streams, Redis,
}
use analytics_core.EventBus.RedisStream.Acknowledged.{Handles, IsSafe, subscribe-IsSafe}
use analytics_core.EventBus.RedisStream.Draining.{Drained, subscribe-Drained}
use analytics_core.EventBus.RedisStream.Exhausted.{AreFinished, messages-AreFinished}
use analytics_core.EventBus.Ingestion.{handle_message}
use analytics_core.EventBus.Ingestion.Delivered.{Writer, processor, InTables, ingest-IsSafe}

-- The answers of the reads to come; behind them the context has ended.
record Server : Type 0 where
  answers : List ReadAnswer
  delivered : ℤ

abbrev ended : Server → Option Error × Server
ended s = elim s.answers [ [] ↦ (some (txt "context canceled"), s) | a ∷ later ↦ (none, s) ]

abbrev next_read : Server → ReadAnswer × Server
next_read s = elim s.answers [ [] ↦ (nothing, s) | a ∷ later ↦ (a, record s { answers = later }) ]

abbrev memory_redis : Redis
memory_redis = record {
  State = Server;
  ended = ended;
  create_group = λ stream group s. (some (txt "BUSYGROUP exists"), s);
  read_group = λ opts group kind block s. next_read s;
  ack = λ stream group id s. (none, s);
  pending_counts = λ stream group id s. (ok (s.delivered ∷ []), s);
  add = λ stream entry s. (none, s);
}

abbrev reads_purchase : Text → Fallible EventEnvelope
reads_purchase text = if text_beq text (txt "{}") then ok purchase else err (txt "invalid JSON")

abbrev options : Options
options = record {
  stream = txt "events";
  block = pos 1000000000;
  count = pos 10;
  ensure_consumer = true;
  max_attempts = pos 3;
  dead_letter_stream = txt "events:dead";
}

abbrev group : ConsumerGroup
group = record { name = txt "ingestion"; consumer = txt "worker-1" }

abbrev message : StreamMessage
message = record { id = txt "1-0"; raw = payload (txt "{}") }

-- Nothing is pending, one message is new, and it is gone from the pending ones.
abbrev one_message : List ReadAnswer
one_message = nothing ∷ streams ((message ∷ []) ∷ []) ∷ []

abbrev server : Server
server = record { answers = one_message; delivered = pos 3 }

abbrev Writers : Type 0
Writers = Writer memory_table (memory_warehouse EventEnvelope) true accepts accepts

abbrev handles : Message → Writers → Option Error × Writers
handles = processor memory_table (memory_warehouse EventEnvelope) true accepts accepts

abbrev Subscription : Type 0
Subscription = World memory_redis Writers handles reads_purchase options group

abbrev start : Answers → Subscription
start answers = record {
  server = server;
  handled = start_world [] answers;
  acks = [];
  letters = [];
  reads = [];
}

abbrev subscribes : ℕ → Subscription → Ending × Subscription
subscribes = subscribe_redis memory_redis Writers handles reads_purchase options group

ingest-IsSafe_example :
    IsSafe memory_redis Writers handles reads_purchase options group
      (IsDurable memory_table (memory_warehouse EventEnvelope) true accepts accepts)
      (InTables memory_table (memory_warehouse EventEnvelope) true accepts accepts)
      (subscribes 2 (start [])).1
ingest-IsSafe_example =
    ingest-IsSafe memory_table (memory_warehouse EventEnvelope) true accepts accepts memory_redis
      reads_purchase options group 2 (start []) empty-IsDurable refl

-- The event is in the tables, and its message is acknowledged.
ingested :
    let after = (subscribes 2 (start [])).1 in
    (after.acks ≡ message ∷ []) × (after.handled.store.batches ≡ purchase ∷ [])
unfolding subscribe_redis rounds round consume consumed process_messages process_message decode
    delivery_attempt handle_failure contains handle_message write_event write_claimed_event
    start_event_write commit rollback validate_status_envelope create_row first_row update_row ask
    send lookup insert text_beq trim_space key_beq
ingested = (refl, refl)

subscribe-Drained_example : Drained (subscribes 2 (start [])).1.reads
subscribe-Drained_example =
    subscribe-Drained memory_redis Writers handles reads_purchase options group 2 (start []) tt

-- A handler that never fails and counts its calls.
abbrev counts : Message → ℕ → Option Error × ℕ
counts m n = (none, suc n)

counts-Handles :
    Handles memory_redis ℕ counts reads_purchase options group (λ n. Unit) (λ e n. n ≡ 0 → ⊥)
counts-Handles = record {
  keeps = λ m n u. tt;
  gains = λ m n u nil h. absurd cc;
  stays = λ m n e u h z. absurd cc;
}

abbrev start_count : World memory_redis ℕ counts reads_purchase options group
start_count = record { server = server; handled = 0; acks = []; letters = []; reads = [] }

subscribe-IsSafe_example :
    IsSafe memory_redis ℕ counts reads_purchase options group
      (λ n. Unit)
      (λ e n. n ≡ 0 → ⊥)
      (subscribe_redis memory_redis ℕ counts reads_purchase options group 2 start_count).1
subscribe-IsSafe_example =
    subscribe-IsSafe memory_redis ℕ counts reads_purchase options group (λ n. Unit)
      (λ e n. n ≡ 0 → ⊥) counts-Handles 2 start_count (record { inv = tt; settled = tt })

-- A handler that always fails: the third attempt writes a dead letter.
abbrev fails : Message → ℕ → Option Error × ℕ
fails m n = (some (txt "down"), suc n)

abbrev start_fails : World memory_redis ℕ fails reads_purchase options group
start_fails = record { server = server; handled = 0; acks = []; letters = []; reads = [] }

abbrev processes_one : Option Error × World memory_redis ℕ fails reads_purchase options group
processes_one =
    process_messages memory_redis ℕ fails reads_purchase options group (message ∷ []) start_fails

processes_nil : processes_one.0 ≡ none
unfolding process_messages process_message decode delivery_attempt handle_failure text_beq
processes_nil = refl

messages-AreFinished_example :
    AreFinished memory_redis ℕ fails reads_purchase options group (message ∷ []) start_fails
messages-AreFinished_example =
    messages-AreFinished memory_redis ℕ fails reads_purchase options group (message ∷ [])
      start_fails refl refl processes_nil

one_letter :
    (subscribe_redis memory_redis ℕ fails reads_purchase options group 2 start_fails).1.acks
    ≡ message ∷ []
unfolding subscribe_redis rounds round consume consumed process_messages process_message decode
    delivery_attempt handle_failure text_beq contains
one_letter = refl

publish-Delivered_example :
    Delivered ℕ
      (direct_message ℕ 1 purchase)
      (counts ∷ fails ∷ counts ∷ [])
      0
      (publish_direct ℕ purchase
        (subscribed ℕ (counts ∷ fails ∷ counts ∷ []) (new_direct_bus ℕ))
        0).0
      (publish_direct ℕ purchase
        (subscribed ℕ (counts ∷ fails ∷ counts ∷ []) (new_direct_bus ℕ))
        0).2
publish-Delivered_example =
    publish-Delivered ℕ (counts ∷ fails ∷ counts ∷ []) purchase (new_direct_bus ℕ) 0
