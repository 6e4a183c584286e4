-- ===== src/Kafka.antt =====
-- eventbus/kafka: the Kafka provider of the event bus.
pub mod OrderedCommit
pub mod Gate
pub mod Delivery
pub mod Protector
mod Scenarios
mod ProtectorScenarios
