-- ===== src/Domain.antt =====
-- domain: commands, their processors, and the events and messages that they give.
pub mod Entities
pub mod Handlers
pub mod Session
pub mod Aggregate
pub mod Process
pub mod Commands
pub mod Selection
pub mod Frame
pub mod Processors
pub mod Logged
pub mod Transactions
pub mod Settlement
pub mod Overlap
pub mod Refusal
pub mod Created
mod Tests
