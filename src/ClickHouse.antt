-- ===== src/ClickHouse.antt =====
-- storage/event_query.go and storage/clickhouse: routed tables, and the queries that read them.
pub mod Tables
pub mod Schema
pub mod Rows
pub mod EventQuery
pub mod QueryPolicy
pub mod QueryScope
pub mod QueryPlans
pub mod EventReader
pub mod Columns
mod Interpreter
mod Memory
mod Scenarios
