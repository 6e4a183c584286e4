-- ===== src/Collect.antt =====
-- collect: what turns a request into an event, before the queue.
pub mod Request
pub mod Digest
pub mod Handler
pub mod Session
pub mod Enrichment
pub mod Scanning
pub mod TrafficFilter
pub mod Pipeline
mod Scenarios
