-- ===== src/Navis/Router.antt =====
-- navis/engine/router.py: which handlers get an event.
pub mod Defs
pub mod Order
pub mod Routing
mod Tests
