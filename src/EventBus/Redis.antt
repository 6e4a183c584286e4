-- ===== src/EventBus/Redis.antt =====
-- What eventbus/redisstream/redisstream.go exchanges with Redis: its commands, as an interface of what
-- they answer, the entries of its streams, and its options.
use analytics_core.Prelude.{Bool, Option, List, [], ◌∷◌, ◌++◌, Text, txt, if◌then◌else◌}
use analytics_core.Contracts.{int_ltb, ℤ, pos}
use analytics_core.Storage.Backends.{Error, Fallible, ok, err}
use analytics_core.EventBus.{ConsumerGroup}

pub record Options : Type 0 where
  pub stream : Text
  pub block : ℤ
  pub count : ℤ
  pub ensure_consumer : Bool
  pub max_attempts : ℤ
  pub dead_letter_stream : Text

-- The field `envelope` of an entry: it is missing, a string or bytes, or of another type.
pub data RawEnvelope : Type 0 where
  missing unsupported : RawEnvelope
  payload : Text → RawEnvelope

pub record StreamMessage : Type 0 where
  pub id : Text
  pub raw : RawEnvelope

pub record DeadLetter : Type 0 where
  pub envelope : Text
  pub attempt : ℤ
  pub consumer : Text
  pub error : Error
  pub consumer_group : Text
  pub original_message_id : Text

-- What is appended to a stream.
pub data Entry : Type 0 where
  event_entry : Text → Entry
  letter_entry : DeadLetter → Entry

-- `0` reads what is pending, and `>` what is new.
pub data ReadFrom : Type 0 where
  pending_ones new_ones : ReadFrom

pub data ReadAnswer : Type 0 where
  nothing : ReadAnswer
  read_error : Error → ReadAnswer
  streams : List (List StreamMessage) → ReadAnswer

-- The commands of Redis, and the end of the context.
pub record Redis : Type 1 where
  pub State : Type 0
  pub ended : State → Option Error × State
  pub create_group : Text → Text → State → Option Error × State
  pub read_group : Options → ConsumerGroup → ReadFrom → ℤ → State → ReadAnswer × State
  pub ack : Text → Text → Text → State → Option Error × State
  pub pending_counts : Text → ConsumerGroup → Text → State → Fallible (List ℤ) × State
  pub add : Text → Entry → State → Option Error × State

abbrev pub payload_of : RawEnvelope → Fallible Text
payload_of missing = err (txt "redis stream message missing envelope")
payload_of unsupported = err (txt "redis stream envelope has unsupported type")
payload_of (payload text) = ok text

abbrev pub attempt_of : List ℤ → ℤ
attempt_of [] = pos 1
attempt_of (count ∷ counts) = if int_ltb (pos 0) count then count else pos 1

abbrev pub all_messages : List (List StreamMessage) → List StreamMessage
all_messages [] = []
all_messages (ms ∷ later) = ms ++ all_messages later
