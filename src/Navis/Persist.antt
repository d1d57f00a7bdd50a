-- ===== src/Navis/Persist.antt =====
-- navis/engine/manager.py: what a manager writes of a runner, and its tables.
pub mod Defs
pub mod Sync
pub mod Stored
mod Tests
