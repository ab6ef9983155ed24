-- ===== src/Core/Optimizer.antt =====
-- crates/magna-core/src/optimizer.rs: the passes that run between planning and execution, and what
-- each of them keeps.
pub mod Passes
pub mod Hoist
pub mod Duplicates
pub mod Removal
pub mod Dedup
pub mod Outcome
