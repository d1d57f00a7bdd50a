-- ===== src/Query.antt =====
-- query and data/query.py: what a client asks of a resource, and the query of the data layer made of it.
pub mod Statements
pub mod Operators
pub mod Resources
pub mod Select
pub mod Manager
pub mod Permitted
pub mod Safety
pub mod Built
pub mod Initialized
pub mod Guard
pub mod Policy
pub mod PresetLaws
pub mod Pages
pub mod Tests
