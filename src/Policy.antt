-- ===== src/Policy.antt =====
-- casbin: how policies become a restriction of queries.
pub mod Conditions
pub mod Manager
pub mod Meaning
pub mod Restriction
pub mod Widest
pub mod Asked
pub mod Outcome
pub mod Tests
