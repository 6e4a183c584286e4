-- ===== src/Storage.antt =====
-- storage, storage/mysql and storage/clickhouse: writing events and their properties once.
pub mod Backends
pub mod Property
pub mod Memory
pub mod IngestionGuard
pub mod BatchWriter
pub mod Scenarios
pub mod PropertyGuard
pub mod PropertyIndexing
