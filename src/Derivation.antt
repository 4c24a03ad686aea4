-- ===== src/Derivation.antt =====
-- The package derivation (internal/derivation): rules over facts, run to a bounded fixed point.
pub mod Run
pub mod Facts
pub mod Batch
pub mod Executor
pub mod Registry
pub mod Loop
pub mod Growth
pub mod FixedPoint
pub mod Ending
pub mod Soundness
mod Examples
