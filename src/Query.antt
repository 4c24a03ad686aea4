-- ===== src/Query.antt =====
-- The package query (internal/query): the gate that stands before a generated answer, the greedy
-- selection of the items of a context under four limits, and the relations that are added to it.
pub mod Abstention
pub mod Check
pub mod Context
pub mod Utility
pub mod Candidate
pub mod Greedy
pub mod Result
pub mod Relation
pub mod ClosureState
pub mod Closure
pub mod ClosureResult
pub mod Closed
pub mod Selection
mod Examples
