-- ===== src/EventBus/RedisStream.antt =====
-- eventbus/redisstream/redisstream.go: an event bus on a Redis stream. The handler is a function on
-- a state of its own; JSON is a parameter, and the time of a failure is left out of its record.
pub mod Acknowledged
pub mod Draining
pub mod Exhausted
mod Kept
use analytics_core.Prelude.{
  ℕ, zero, suc, ◌≡◌, refl, ◌⊎◌, inl, inr, ◌+◌, ltb, Bool, true, false, not, ◌||◌, ◌&&◌, Option,
  none, some, List, [], ◌∷◌, ◌++◌, length, Text, txt, is_empty, if◌then◌else◌,
}
use analytics_core.Contracts.{int_ltb, EventEnvelope, ℤ, pos}
use analytics_core.Collect.Scanning.{contains}
use analytics_core.Storage.Backends.{Error, Fallible, ok, err}
use analytics_core.EventBus.{ConsumerGroup, Message}
use analytics_core.EventBus.Redis.{
  Options, RawEnvelope, missing, unsupported, payload, StreamMessage, DeadLetter, Entry,
  event_entry, letter_entry, ReadFrom, pending_ones, new_ones, ReadAnswer, nothing, read_error,
  streams, Redis, payload_of, attempt_of, all_messages,
}

unfoldable pub new_redis_bus : Options → Fallible Options
new_redis_bus opts =
    if is_empty opts.stream
    then err (txt "redis stream is required")
    else ok (record opts {
      block = if int_ltb (pos 0) opts.block then opts.block else pos 1000000000;
      count = if int_ltb (pos 0) opts.count then opts.count else pos 10;
    })

-- `publish` with the JSON of an envelope.
unfoldable pub publish_redis :
    (r : Redis)
    → (EventEnvelope → Fallible Text)
    → Options
    → EventEnvelope
    → r.State
    → Option Error × r.State
publish_redis r marshal opts envelope s = elim (marshal envelope) [
  | err e ↦ (some e, s)
  | ok text ↦ r.add opts.stream (event_entry text) s
]

abbrev pub is_busy_group : Error → Bool
is_busy_group e = contains e (txt "BUSYGROUP")

-- A read that was made, and how many messages were processed behind it.
pub record Read : Type 0 where
  pub kind : ReadFrom
  pub processed : ℕ

pub data Ending : Type 0 where
  running : Ending
  ends : Error → Ending

pub Ending-cases : (e : Ending) → (e ≡ running) ⊎ ((cause : Error) × (e ≡ ends cause))
Ending-cases running = inl refl
Ending-cases (ends e) = inr (e, refl)

module _ (r : Redis) (H : Type 0) (handler : Message → H → Option Error × H)
    (unmarshal : Text → Fallible EventEnvelope) (opts : Options) (group : ConsumerGroup) where
  -- The states, and what has been done, the latest first: the messages that XAck was called for,
  -- the dead letters that were written, and the reads.
  pub record World : Type 0 where
    pub server : r.State
    pub handled : H
    pub acks : List StreamMessage
    pub letters : List DeadLetter
    pub reads : List Read

  abbrev pub decoded_envelope : Fallible Text → Fallible (Text × EventEnvelope)
  decoded_envelope (err e) = err e
  decoded_envelope (ok text) = elim (unmarshal text) [
    | err e ↦ err e
    | ok envelope ↦ ok (text, envelope)
  ]

  unfoldable pub delivery_attempt : Text → r.State → Fallible ℤ × r.State
  delivery_attempt id s =
      let (counts, s') = r.pending_counts opts.stream group id s in
      (elim counts [ err e ↦ err e | ok counts ↦ ok (attempt_of counts) ], s')

  abbrev pub bus_message : Text → ℤ → EventEnvelope → Message
  bus_message id attempt envelope = record {
    id = id;
    topic = opts.stream;
    partition = 0;
    offset = 0;
    key = envelope.id;
    attempt = attempt;
    envelope = envelope;
  }

  unfoldable pub decode : StreamMessage → r.State → Fallible (Message × Text) × r.State
  unfolding delivery_attempt
  decode m s = elim (decoded_envelope (payload_of m.raw)) [
    | err e ↦ (err e, s)
    | ok (text, envelope) ↦
        let (attempt, s') = delivery_attempt m.id s in
        (
          elim attempt [
            | err e ↦ err e
            | ok attempt ↦ ok (bus_message m.id attempt envelope, text)
          ],
          s',
        )
  ]

  abbrev pub dead_letter : StreamMessage → ℤ → Text → Error → DeadLetter
  dead_letter m attempt text cause = record {
    envelope = text;
    attempt = attempt;
    consumer = group.consumer;
    error = cause;
    consumer_group = group.name;
    original_message_id = m.id;
  }

  -- `XAck`, which is noted whatever it answers.
  abbrev pub acknowledge : StreamMessage → World → Option Error × World
  acknowledge m w =
      let (e, s) = r.ack opts.stream group.name m.id w.server in
      (e, record w { server = s; acks = m ∷ w.acks })

  abbrev pub keeps_pending : ℤ → Bool
  keeps_pending attempt =
      not (int_ltb (pos 0) opts.max_attempts)
      || (int_ltb attempt opts.max_attempts || is_empty opts.dead_letter_stream)

  unfoldable pub handle_failure : StreamMessage → ℤ → Text → Error → World → Option Error × World
  handle_failure m attempt text cause w =
      let letter = dead_letter m attempt text cause in
      let (e, s) = r.add opts.dead_letter_stream (letter_entry letter) w.server in
      if keeps_pending attempt then (none, w) else elim e [
        | some e ↦ (some e, record w { server = s })
        | none ↦ acknowledge m (record w { server = s; letters = letter ∷ w.letters })
      ]

  -- The body of the loop over the messages of a read.
  unfoldable pub process_message : StreamMessage → World → Option Error × World
  unfolding decode handle_failure
  process_message m w =
      let (decoded, s) = decode m w.server in
      elim decoded [
        | err e ↦ (some e, record w { server = s })
        | ok (message, text) ↦
            let (e, h) = handler message w.handled in
            let after = record w { server = s; handled = h } in
            elim e [
              | some cause ↦ handle_failure m message.attempt text cause after
              | none ↦ acknowledge m after
            ]
      ]

  unfoldable pub process_messages : List StreamMessage → World → Option Error × World
  unfolding process_message
  process_messages [] w = (none, w)
  process_messages (m ∷ ms) w =
      let (e, w') = process_message m w in
      let rest = process_messages ms w' in elim e [ some e ↦ (some e, w') | none ↦ rest ]

  abbrev pub note : ReadFrom → ℕ → World → World
  note kind processed w = record w {
    reads = record { kind = kind; processed = processed } ∷ w.reads;
  }

  -- What follows the answer of a read. The number beside an error is dropped by the caller, and so
  -- it is here.
  unfoldable pub consumed : ReadFrom → ReadAnswer → World → Fallible ℕ × World
  unfolding process_messages
  consumed kind nothing w = (ok 0, note kind 0 w)
  consumed kind (read_error e) w = (err e, w)
  consumed kind (streams found) w =
      let messages = all_messages found in
      let (e, done) = process_messages messages w in
      elim e [
        | some e ↦ (err e, done)
        | none ↦ (ok (length messages), note kind (length messages) done)
      ]

  unfoldable pub consume : ReadFrom → ℤ → World → Fallible ℕ × World
  unfolding consumed
  consume kind block w =
      let (read, s) = r.read_group opts group kind block w.server in
      consumed kind read (record w { server = s })

  -- One round of the loop of Subscribe.
  unfoldable pub round : World → Ending × World
  unfolding consume
  round w =
      let (e, s) = r.ended w.server in
      let w0 = record w { server = s } in
      elim e [
        | some e ↦ (ends e, w0)
        | none ↦
            let (p, w1) = consume pending_ones (pos 0) w0 in
            elim p [
              | err e ↦ (ends e, w1)
              | ok (suc n) ↦ (running, w1)
              | ok zero ↦
                  let (q, w2) = consume new_ones opts.block w1 in
                  elim q [ err e ↦ (ends e, w2) | ok n ↦ (running, w2) ]
            ]
      ]

  -- The loop goes on until it ends; the fuel is the number of rounds to look at.
  unfoldable pub rounds : ℕ → World → Ending × World
  unfolding round
  rounds zero w = (running, w)
  rounds (suc fuel) w =
      let (e, w') = round w in
      let rest = rounds fuel w' in elim e [ ends e ↦ (ends e, w') | running ↦ rest ]

  unfoldable pub subscribe_redis : ℕ → World → Ending × World
  unfolding rounds
  subscribe_redis fuel w =
      let (e, s) = r.create_group opts.stream group.name w.server in
      let w0 = record w { server = s } in
      if is_empty group.name
      then (ends (txt "consumer group name is required"), w)
      else if is_empty group.consumer
      then (ends (txt "consumer name is required"), w)
      else if not opts.ensure_consumer
      then rounds fuel w
      else elim e [
        | none ↦ rounds fuel w0
        | some e ↦ if is_busy_group e then rounds fuel w0 else (ends e, w0)
      ]
