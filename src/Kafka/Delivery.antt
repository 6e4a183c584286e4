-- ===== src/Kafka/Delivery.antt =====
-- eventbus/kafka/bus.go: retry, dead-lettering and completion of one consumed message, from
-- `processConsumerMessageWithHandler` down to `publishDeadLetter`. What the environment decides,
-- cancellation, the handler, JSON and the broker, is a record of answers.
pub mod Letters
pub mod Verdicts
pub mod Completion
use analytics_core.Prelude.{
  ℕ, zero, suc, ◌+◌, Bool, true, false, Option, none, some, List, [], ◌∷◌, ◌++◌, leb, Text, txt,
  if◌then◌else◌, add64, is_empty,
}
use analytics_core.Contracts.{EventEnvelope}
use analytics_core.Kafka.Gate.{GateCall, adds_task, ends_task, completes_now}

-- `error` by its message.
abbrev pub Error : Type 0
Error = Text

-- The fields of `sarama.ConsumerMessage` that are read.
pub record ConsumerMessage : Type 0 where
  pub topic : Text
  pub partition : ℕ
  pub offset : ℕ
  pub key : Text
  pub value : Text

-- `eventbus.Message`; its ID is made of the topic, partition and offset.
pub record Message : Type 0 where
  pub topic : Text
  pub partition : ℕ
  pub offset : ℕ
  pub key : Text
  pub attempt : ℕ
  pub envelope : EventEnvelope

-- `deadLetterRecord`, but for the time of the failure.
pub record DeadLetterRecord : Type 0 where
  pub envelope : EventEnvelope
  pub raw : Text
  pub original_topic : Text
  pub original_partition : ℕ
  pub original_offset : ℕ
  pub original_key : Text
  pub consumer_group : Text
  pub consumer_id : Text
  pub attempt : ℕ
  pub error : Error

-- How a call of the handler ends.
pub data HandlerEnd : Type 0 where
  returns : Option Error → HandlerEnd
  panics : Text → HandlerEnd

-- `b.opts`, the consumer group, and the answers of the environment: `unmarshal` gives the envelope
-- even beside an error, and the answers to a repeated question are numbered.
pub record Env : Type 0 where
  pub max_attempts : ℕ
  pub dead_letter_topic : Text
  pub group_name : Text
  pub group_consumer : Text
  pub unmarshal : Text → Option Error × EventEnvelope
  pub handler : Message → HandlerEnd
  pub cancelled : ℕ → Bool  -- before the attempt of this number
  pub retry_sleep : ℕ → Bool  -- `sleepContext` behind the attempt of this number
  pub publish_cancelled : ℕ → Option Error  -- `ctx.Err()` in the dead-letter write of this number
  pub marshal : DeadLetterRecord → Option Error
  pub send : ℕ → Option Error  -- `SendMessage` in the dead-letter write of this number
  pub publish_sleep : ℕ → Bool  -- `sleepContext` behind the dead-letter write of this number

-- What the processing of one message has done: the counters of `kafkaMetrics` that it moves, the
-- calls on its gate, the calls of the handler and the records written to the dead-letter topic,
-- each in order.
pub record Run : Type 0 where
  pub malformed_total : ℕ
  pub handler_success_total : ℕ
  pub handler_failure_total : ℕ
  pub handler_retry_total : ℕ
  pub dead_letter_success_total : ℕ
  pub dead_letter_failure_total : ℕ
  pub gate_calls : List GateCall
  pub handled : List Message
  pub dead_letters : List DeadLetterRecord

abbrev pub no_run : Run
no_run = record {
  malformed_total = 0;
  handler_success_total = 0;
  handler_failure_total = 0;
  handler_retry_total = 0;
  dead_letter_success_total = 0;
  dead_letter_failure_total = 0;
  gate_calls = [];
  handled = [];
  dead_letters = [];
}

pub call_gate : GateCall → Run → Run
call_gate call r = record r { gate_calls = r.gate_calls ++ call ∷ [] }

module _ (env : Env) (m : ConsumerMessage) where
  -- `callHandler`
  unfoldable pub call_handler : Message → Option Error
  call_handler message = elim (env.handler message) [
    | returns e ↦ e
    | panics recovered ↦ some (txt "kafka handler panic: " ++ recovered)
  ]

  pub dead_letter_record : ℕ → EventEnvelope → Error → Text → DeadLetterRecord
  dead_letter_record attempt envelope cause raw = record {
    envelope = envelope;
    raw = raw;
    original_topic = m.topic;
    original_partition = m.partition;
    original_offset = m.offset;
    original_key = m.key;
    consumer_group = env.group_name;
    consumer_id = env.group_consumer;
    attempt = attempt;
    error = cause;
  }

  -- The dead-letter write of the number `i`: `none` when the record is written.
  unfoldable pub publish_dead_letter : ℕ → DeadLetterRecord → Option Error
  publish_dead_letter i letter =
      if is_empty env.dead_letter_topic
      then some (txt "kafka dead-letter topic is required")
      else elim (env.publish_cancelled i) [
        | some e ↦ some e
        | none ↦ elim (env.marshal letter) [ some e ↦ some e | none ↦ env.send i ]
      ]

  pub published : DeadLetterRecord → Run → Run
  published letter r = record r {
    dead_letter_success_total = add64 r.dead_letter_success_total 1;
    dead_letters = r.dead_letters ++ letter ∷ [];
  }

  pub not_published : Run → Run
  not_published r = record r { dead_letter_failure_total = add64 r.dead_letter_failure_total 1 }

  -- The loop of `deadLetterUntilDone` from the write of the number `i` on, on fuel: `none` while it
  -- still goes round.
  unfoldable pub dead_letter_until_done : ℕ → ℕ → DeadLetterRecord → Run → Option (Bool × Run)
  unfolding published not_published
  dead_letter_until_done zero i letter r = none
  dead_letter_until_done (suc fuel) i letter r =
      let again = dead_letter_until_done fuel (i + 1) letter (not_published r) in
      elim (publish_dead_letter i letter) [
        | none ↦ some (true, published letter r)
        | some e ↦ if env.publish_sleep i then again else some (false, not_published r)
      ]

  -- `if b.deadLetterUntilDone(…) { gate.… }`
  pub complete_if : GateCall → Option (Bool × Run) → Option Run
  unfolding call_gate
  complete_if call none = none
  complete_if call (some (true, r)) = some (call_gate call r)
  complete_if call (some (false, r)) = some r

  pub message : EventEnvelope → ℕ → Message
  message envelope attempt = record {
    topic = m.topic;
    partition = m.partition;
    offset = m.offset;
    key = m.key;
    attempt = attempt;
    envelope = envelope;
  }

  pub succeeded : Message → Run → Run
  unfolding call_gate
  succeeded msg r = call_gate ends_task (record r {
    handler_success_total = add64 r.handler_success_total 1;
    handled = r.handled ++ msg ∷ [];
  })

  pub failed : Message → Run → Run
  failed msg r = record r {
    handler_failure_total = add64 r.handler_failure_total 1;
    handled = r.handled ++ msg ∷ [];
  }

  pub retried : Run → Run
  retried r = record r { handler_retry_total = add64 r.handler_retry_total 1 }

  -- The loop over the attempts, from `attempt` on: `rounds` bounds the attempts and `fuel` the
  -- dead-letter writes.
  unfoldable pub attempts : ℕ → ℕ → EventEnvelope → ℕ → Run → Option Run
  unfolding complete_if succeeded failed retried
  attempts fuel zero envelope attempt r = none
  attempts fuel (suc rounds) envelope attempt r =
      let msg = message envelope attempt in
      let again = attempts fuel rounds envelope (attempt + 1) (retried (failed msg r)) in
      if env.cancelled attempt then some r else elim (call_handler msg) [
        | none ↦ some (succeeded msg r)
        | some e ↦
            if leb env.max_attempts attempt
            then complete_if ends_task (
                dead_letter_until_done fuel 0 (dead_letter_record attempt envelope e [])
                  (failed msg r))
            else if env.retry_sleep attempt
            then again
            else some (retried (failed msg r))
      ]

  pub malformed : Run → Run
  malformed r = record r { malformed_total = add64 r.malformed_total 1 }

  -- `processConsumerMessageWithHandler`; one round more than `max_attempts` is enough.
  unfoldable pub process : ℕ → Run → Option Run
  unfolding complete_if malformed call_gate
  process fuel r =
      let envelope = (env.unmarshal m.value).1 in
      elim (env.unmarshal m.value).0 [
        | some e ↦
            complete_if completes_now (
              dead_letter_until_done fuel 0 (dead_letter_record 1 envelope e m.value) (malformed r))
        | none ↦ attempts fuel (suc env.max_attempts) envelope 1 (call_gate adds_task r)
      ]
