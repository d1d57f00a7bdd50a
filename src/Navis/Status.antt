-- ===== src/Navis/Status.antt =====
-- navis/status.py: the states of a step and of a workflow, and the groups that guards name.
use fluvius_py.Common.{ℕ, Bool, List, [], ◌∷◌, ◌==◌, any}

pub data StepStatus : Type 0 where
  active error completed cancelled ignored : StepStatus

pub data WorkflowStatus : Type 0 where
  new active degraded paused failed completed cancelled : WorkflowStatus

pub data StageStatus : Type 0 where
  active error completed : StageStatus

pub data TaskStatus : Type 0 where
  scheduled running failed completed cancelled : TaskStatus

-- `==` of enum members
abbrev pub step_code : StepStatus → ℕ
step_code StepStatus.active = 0
step_code StepStatus.error = 1
step_code StepStatus.completed = 2
step_code StepStatus.cancelled = 3
step_code StepStatus.ignored = 4

abbrev pub step_status_eq : StepStatus → StepStatus → Bool
step_status_eq a b = step_code a == step_code b

abbrev pub workflow_code : WorkflowStatus → ℕ
workflow_code WorkflowStatus.new = 0
workflow_code WorkflowStatus.active = 1
workflow_code WorkflowStatus.degraded = 2
workflow_code WorkflowStatus.paused = 3
workflow_code WorkflowStatus.failed = 4
workflow_code WorkflowStatus.completed = 5
workflow_code WorkflowStatus.cancelled = 6

abbrev pub workflow_status_eq : WorkflowStatus → WorkflowStatus → Bool
workflow_status_eq a b = workflow_code a == workflow_code b

-- `status in group`
abbrev pub step_in : List StepStatus → StepStatus → Bool
step_in group s = any (step_status_eq s) group

abbrev pub workflow_in : List WorkflowStatus → WorkflowStatus → Bool
workflow_in group s = any (workflow_status_eq s) group

-- `StepStatus._FINISHED`
abbrev pub finished_steps : List StepStatus
finished_steps = StepStatus.completed ∷ StepStatus.ignored ∷ StepStatus.cancelled ∷ []

-- `WorkflowStatus._FINISHED`, `_ACTIVE`, `_EDITABLE`
abbrev pub finished_workflows : List WorkflowStatus
finished_workflows =
    WorkflowStatus.completed ∷ WorkflowStatus.cancelled ∷ WorkflowStatus.failed ∷ []

abbrev pub active_workflows : List WorkflowStatus
active_workflows = WorkflowStatus.active ∷ WorkflowStatus.degraded ∷ []

abbrev pub editable_workflows : List WorkflowStatus
editable_workflows = WorkflowStatus.active ∷ WorkflowStatus.degraded ∷ WorkflowStatus.new ∷ []
