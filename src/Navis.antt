-- ===== src/Navis.antt =====
-- navis: the workflow engine.
pub mod Status
pub mod Data
pub mod Runner
pub mod Persist
pub mod Router
pub mod Definition
pub mod Manager
mod Examples
