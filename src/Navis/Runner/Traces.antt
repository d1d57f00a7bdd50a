-- ===== src/Navis/Runner/Traces.antt =====
-- Every run of an action is a sequence of moves, whatever the hooks do.
pub mod Rules
pub mod Keeps
pub mod Writes
pub mod NewStep
pub mod Reconcile
pub mod Hooks
pub mod Actions
pub mod Bodies
