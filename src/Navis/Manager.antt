-- ===== src/Navis/Manager.antt =====
-- navis/engine/manager.py: the runners that a manager keeps.
pub mod Defs
pub mod Caches
mod Tests
