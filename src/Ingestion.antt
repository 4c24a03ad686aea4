-- ===== src/Ingestion.antt =====
-- The package ingestion (internal/ingestion): its durable jobs their store and the executor.
pub mod Result
pub mod Text
pub mod Job
pub mod Store
pub mod Executor
mod Examples
