-- ===== src/Navis/Data.antt =====
-- navis/engine/datadef.py and mutation.py: the records of a workflow, and what the engine queues.
-- A UUID is its canonical text, a time a number, and a progress the quotient of two counts.
mod Records
mod Mutations
unfoldable pub use Records.*
unfoldable pub use Mutations.*
