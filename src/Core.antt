-- ===== src/Core.antt =====
-- crates/magna-core and crates/magna-types: steps, plans, their optimisation and execution.
pub mod Flags
pub mod Step
pub mod Batch
pub mod Order
pub mod Petgraph
pub mod Planner
pub mod Optimizer
pub mod Tiers
pub mod Executor
mod Samples
