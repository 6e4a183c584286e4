-- ===== src/EventBus.antt =====
-- eventbus/eventbus.go: the messages of an event bus and the group that consumes them.
pub mod Direct
pub mod Redis
pub mod RedisStream
pub mod Ingestion
mod Scenarios
use analytics_core.Prelude.{ℕ, Text}
use analytics_core.Contracts.{EventEnvelope, ℤ}

pub record ConsumerGroup : Type 0 where
  pub name : Text
  pub consumer : Text

pub record Message : Type 0 where
  pub id : Text
  pub topic : Text
  pub partition : ℕ
  pub offset : ℕ
  pub key : Text
  pub attempt : ℤ
  pub envelope : EventEnvelope
