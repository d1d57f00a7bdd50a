-- ===== src/Data.antt =====
-- The data layer: statements of SQLAlchemy, the driver of a database, and the data manager over it.
pub mod Columns
pub mod Clauses
pub mod Statements
pub mod Truth
pub mod Filled
pub mod Meaning
pub mod Where
pub mod Taken
pub mod Positive
pub mod Restricted
pub mod Negation
pub mod Chosen
pub mod Errors
pub mod Driver
pub mod Models
pub mod Manager
pub mod Returned
pub mod Effects
pub mod Writes
pub mod Registered
pub mod Counts
pub mod Example
pub mod Tests
pub mod WriteTests
