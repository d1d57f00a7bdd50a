-- ===== src/Navis/Definition.antt =====
-- navis/engine/workflow.py and `WorkflowRunner.__init_subclass__`: from class statements to an engine.
pub mod Defs
pub mod Classes
pub mod Built
mod Tests
