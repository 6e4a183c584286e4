-- ===== src/EventBus/Direct.antt =====
-- eventbus/direct/direct.go: an event bus in the process. The handlers share a state; Subscribe waits
-- for its context after the registration, which the bus does not notice.
pub mod Ordered
use analytics_core.Prelude.{
  ℕ, ◌+◌, Option, none, some, List, [], ◌∷◌, ◌++◌, Text, txt, digits, add64,
}
use analytics_core.Contracts.{EventEnvelope, pos}
use analytics_core.Storage.Backends.{Error}
use analytics_core.EventBus.{Message}

module _ (W : Type 0) where
  abbrev pub Handler : Type 0
  Handler = Message → W → Option Error × W

  pub record DirectBus : Type 0 where
    pub handlers : List Handler
    pub sequence : ℕ

  abbrev pub new_direct_bus : DirectBus
  new_direct_bus = record { handlers = []; sequence = 0 }

  abbrev pub subscribe_direct : Handler → DirectBus → DirectBus
  subscribe_direct handler bus = record bus { handlers = bus.handlers ++ handler ∷ [] }

  -- The loop over the handlers, which the first error ends.
  unfoldable pub deliver : Message → List Handler → W → Option Error × W
  deliver message [] w = (none, w)
  deliver message (handler ∷ handlers) w =
      let (e, w') = handler message w in
      let rest = deliver message handlers w' in elim e [ some e ↦ (some e, w') | none ↦ rest ]

  unfoldable pub direct_message : ℕ → EventEnvelope → Message
  direct_message sequence envelope = record {
    id = txt "direct:" ++ digits 20 sequence;
    topic = txt "direct";
    partition = 0;
    offset = 0;
    key = envelope.id;
    attempt = pos 1;
    envelope = envelope;
  }

  unfoldable pub publish_direct : EventEnvelope → DirectBus → W → Option Error × DirectBus × W
  unfolding deliver direct_message
  publish_direct envelope bus w =
      let sequence = add64 bus.sequence 1 in
      let (e, w') = deliver (direct_message sequence envelope) bus.handlers w in
      (e, record bus { sequence = sequence }, w')
