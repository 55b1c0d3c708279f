-- ===== src/Models.antt =====
-- bin/app/models: the records of the KV Store collections.
pub mod DataSource
pub mod Platform
pub mod Queue
pub mod Run
pub mod ValidationResult
pub mod WorkerLease
pub mod Setting
