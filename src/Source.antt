-- ===== src/Source.antt =====
-- The package source (internal/source): so far its paths and patterns.
pub mod Segments
pub mod Path
pub mod Confinement
pub mod Match
pub mod Glob
pub mod Patterns
mod Examples
