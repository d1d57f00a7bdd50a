-- ===== src/Navis/Runner/Progress.antt =====
-- `compute_progress`, `compute_status` and `reconcile`.
use fluvius_py.Common.{
  ℕ, ◌+◌, ◌-◌, Bool, true, false, not, ◌&&◌, ◌||◌, Option, none, some, List, [], ◌∷◌, ◌==◌, str_eq,
  length, ltb, if◌then◌else◌, is_some,
}
use fluvius_py.Common.Dict.{values}
use fluvius_py.Navis.Status.{
  StepStatus, WorkflowStatus, step_status_eq, workflow_status_eq, step_in, finished_steps,
}
use fluvius_py.Navis.Data.{WorkflowStep, WorkflowData, Ratio, ratio_eq, StateUpdate}
use fluvius_py.Exec.{Failure, pure, raise_if, gets, ◌>>=◌, ◌>>◌}
use fluvius_py.Navis.Runner.State.{Run}
use fluvius_py.Navis.Runner.Primitives.{set_state}

unfoldable pub count_active : List WorkflowStep → ℕ
count_active [] = 0
count_active (d ∷ steps) = (if step_in finished_steps d.status then 0 else 1) + count_active steps

-- `len(steps) or 1.0`
abbrev pub or_one : ℕ → ℕ
or_one n = if n == 0 then 1 else n

unfoldable pub compute_progress : List WorkflowStep → Ratio
unfolding count_active
compute_progress steps = record {
  part = or_one (length steps) - count_active steps;
  whole = or_one (length steps);
}

-- `compute_status` compares objects of two classes, which are equal only to themselves.
pub data Object : Type 0 where
  step_object : WorkflowStep → Object
  status_member : StepStatus → Object

abbrev pub object_eq : Object → Object → Bool
object_eq (Object.step_object a) (Object.step_object b) = str_eq a.id b.id
object_eq (Object.status_member a) (Object.status_member b) = step_status_eq a b
object_eq _ _ = false

-- `x in xs`
unfoldable pub object_in : Object → List Object → Bool
object_in x [] = false
object_in x (y ∷ ys) = if object_eq y x then true else object_in x ys

-- `[s for s in steps if s.data.status]`: the steps, since a status is truthy
unfoldable pub step_statuses : List WorkflowStep → List Object
step_statuses [] = []
step_statuses (d ∷ steps) = Object.step_object d ∷ step_statuses steps

abbrev pub finished_members : List Object
finished_members =
    Object.status_member StepStatus.completed
    ∷ Object.status_member StepStatus.ignored
    ∷ Object.status_member StepStatus.cancelled
    ∷ []

unfoldable pub all_in : List Object → List Object → Bool
all_in [] group = true
all_in (x ∷ xs) group = object_in x group && all_in xs group

unfoldable pub compute_status : List WorkflowStep → Option WorkflowStatus
compute_status steps =
    let found = step_statuses steps in
    if object_in (Object.status_member StepStatus.error) found
    then some WorkflowStatus.degraded
    else if ltb 0 (length found) && all_in found finished_members
    then some WorkflowStatus.completed
    else none

-- `new_status is not None and new_status != self._workflow.status`
abbrev pub status_differs : Option WorkflowStatus → Option WorkflowStatus → Bool
status_differs none old = false
status_differs (some s) none = true
status_differs (some s) (some old) = not (workflow_status_eq s old)

abbrev pub is_new : Option WorkflowStatus → Bool
is_new none = false
is_new (some s) = workflow_status_eq s WorkflowStatus.new

-- the dict `updates`
abbrev pub updates : List WorkflowStep → WorkflowData → StateUpdate
updates steps w = record {
  status =
      if status_differs (compute_status steps) w.status then some (compute_status steps) else none;
  paused = none;
  progress =
      if ratio_eq (compute_progress steps) w.progress then none else some (compute_progress steps);
  ts_start = none;
}

-- `if updates: self._set_state(**updates)`
unfoldable pub apply_updates : StateUpdate → Run Unit
apply_updates u = if is_some u.status || is_some u.progress then set_state u else pure tt

unfoldable pub reconcile_steps : List WorkflowStep → Run Unit
reconcile_steps [] = pure tt
reconcile_steps (d ∷ steps) = do
  w ← gets (λ s. s.workflow)
  let found = compute_status (d ∷ steps)
  raise_if (status_differs found w.status && is_new found) (Failure.execution_error "P00.005")
  apply_updates (updates (d ∷ steps) w)

unfoldable pub reconcile : Run Unit
reconcile s = reconcile_steps (values s.steps) s
