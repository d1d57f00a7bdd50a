-- ===== src/Navis/Runner.antt =====
-- navis/engine/runner.py and navis/engine/workflow.py: one workflow in memory.
pub mod Script
pub mod State
pub mod Primitives
pub mod Progress
pub mod Hooks
pub mod Actions
pub mod Lifecycle
pub mod Moves
pub mod Traces
pub mod Registry
pub mod StepStates
pub mod Journal
pub mod StatusPaths
pub mod Faults
pub mod Started
pub mod Starting
pub mod Transactions
mod Tests
