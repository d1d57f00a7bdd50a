-- ===== src/Helper.antt =====
-- helper: utilities that the packages share.
pub mod Registry
pub mod Lookup
pub mod Values
pub mod Merge
pub mod Merging
mod Tests
