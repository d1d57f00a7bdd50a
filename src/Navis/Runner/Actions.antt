-- ===== src/Navis/Runner/Actions.antt =====
-- The methods of `WorkflowRunner` that are marked as actions.
use fluvius_py.Common.{
  ℕ, zero, suc, String, Bool, not, ◌&&◌, ◌||◌, Option, none, some, [], ◌∷◌, ◌++◌, is_some,
}
use fluvius_py.Navis.Status.{
  StepStatus, WorkflowStatus, TaskStatus, step_status_eq, active_workflows, editable_workflows,
}
use fluvius_py.Navis.Data.{
  Uuid, Memory, Mutation, MutateCall, StateUpdate, StepUpdate, WorkflowTask,
}
use fluvius_py.Exec.{Failure, pure, raise, raise_if, gets, modify, ◌>>=◌, ◌>>◌}
use fluvius_py.Navis.Runner.Script.{Reply, NewStep, NewTask, Call, Engine}
use fluvius_py.Navis.Runner.State.{Runner, Run}
use fluvius_py.Navis.Runner.Primitives.{
  mutate, random_uuid, set_state, find_step, update_step, add_step, set_memory, set_output,
  set_step_memory, get_memory,
}
use fluvius_py.Navis.Runner.Hooks.{get_state_proxy, transit, workflow_action, step_action}

-- no argument of `_set_state`
abbrev pub no_update : StateUpdate
no_update = record { status = none; paused = none; progress = none; ts_start = none }

abbrev pub status_update : WorkflowStatus → StateUpdate
status_update s = record no_update { status = some (some s) }

abbrev pub no_step_update : StepUpdate
no_step_update = record {
  stm_state = none;
  stm_label = none;
  status = none;
  ts_finish = none;
  ts_transit = none;
}

-- `self._set_state(status=..)` of the actions that only write a status
unfoldable pub write_status : WorkflowStatus → Run Reply
write_status s = do set_state (status_update s); pure Reply.runner

unfoldable pub pause_workflow : Run Reply
pause_workflow = do
  old ← gets (λ s. s.workflow.status)
  set_state (record no_update { status = some (some WorkflowStatus.paused); paused = some old })
  pure Reply.runner

unfoldable pub resume_workflow : Run Reply
resume_workflow = do
  old ← gets (λ s. s.workflow.paused)
  set_state (record no_update { status = some old; paused = some none })
  pure Reply.runner

abbrev pub task_record : NewTask → Uuid → Runner → WorkflowTask
task_record t id s = record {
  id = id;
  workflow_id = s.id;
  step_id = t.src_step;
  name = t.name;
  status = TaskStatus.running;
  desc = t.desc;
}

-- `resource_name = kwargs.get('resource_name') or self.resource_name`
abbrev pub has_resource : NewTask → Runner → Bool
has_resource t s = is_some t.resource_name || is_some s.workflow.resource_name

-- The body of `add_task`, for a workflow and for a step: with an event loop running the task is sent
-- later, without one it is sent at once and a failure is raised.
unfoldable pub dispatch_task : Engine → NewTask → Run Reply
dispatch_task E t = do
  known ← gets (has_resource t)
  raise_if (not known) (Failure.bad_request "P00.402")
  raise_if (not E.loop_running && E.send_fails t) (Failure.execution_error "P00.001")
  modify (λ s. record s { sent = s.sent ++ t ∷ [] })
  id ← random_uuid E
  task ← gets (task_record t id)
  mutate (MutateCall.fields_of (Mutation.add_task task))
  pure Reply.runner

-- `get_task` returns None.
unfoldable pub cancel_task : String → Run Reply
cancel_task task_id = do mutate (MutateCall.task_call "update-task"); pure Reply.runner

unfoldable pub add_new_step : Engine → Option Uuid → NewStep → Run Reply
add_new_step E src n = do
  d ← add_step E src n.step_key n.selector n.title
  set_step_memory d.id n.memory
  context ← get_state_proxy (some d.selector)
  pure (Reply.proxy context)

unfoldable pub recall : Option Uuid → Run Reply
recall step_id = do m ← get_memory step_id; pure (Reply.recalled m)

unfoldable pub recover : Engine → Uuid → Run Reply
recover E id = do
  d ← find_step id
  raise_if (not (step_status_eq d.status StepStatus.error)) (Failure.execution_error "P00.007")
  update_step E id (record no_step_update { status = some StepStatus.active })
  pure Reply.runner

unfoldable pub memorize : Memory → Run Reply
memorize kvs = do set_memory kvs; pure Reply.runner

unfoldable pub write_output : Memory → Run Reply
write_output kvs = do set_output kvs; pure Reply.runner

unfoldable pub step_memorize : Uuid → Memory → Run Reply
step_memorize id kvs = do set_step_memory id kvs; pure Reply.runner

module _ (E : Engine) (invoke : Call → Run Reply) where
  unfoldable pub transit_to : Uuid → String → Run Reply
  transit_to id to_state = do d ← find_step id; transit E invoke id d to_state; pure Reply.runner

  -- the actions that a proxy offers, each with its decorator's arguments
  unfoldable pub perform : Call → Run Reply
  perform Call.cancel =
      workflow_action E invoke "cancel" editable_workflows "cancelled"
        (write_status WorkflowStatus.cancelled)
  perform Call.abort =
      workflow_action E invoke "abort" (WorkflowStatus.degraded ∷ []) "aborted"
        (write_status WorkflowStatus.failed)
  perform Call.pause =
      workflow_action E invoke "pause" (WorkflowStatus.active ∷ []) "paused" pause_workflow
  perform Call.resume =
      workflow_action E invoke "resume" (WorkflowStatus.paused ∷ []) "resumed" resume_workflow
  perform (Call.add_task t) =
      workflow_action E invoke "add_task" active_workflows "task_added" (dispatch_task E t)
  perform (Call.cancel_task id) =
      workflow_action E invoke "cancel_task" active_workflows "task_cancelled" (cancel_task id)
  perform (Call.transit_step id to_state) =
      workflow_action E invoke "transit_step" active_workflows "transit_step"
        (transit_to id to_state)
  perform (Call.add_step n) =
      workflow_action E invoke "add_step" active_workflows "add_step" (add_new_step E none n)
  perform (Call.memorize kvs) =
      workflow_action E invoke "memorize" active_workflows "memorize" (memorize kvs)
  perform (Call.output kvs) =
      workflow_action E invoke "output" editable_workflows "output" (write_output kvs)
  perform Call.recall = workflow_action E invoke "recall" active_workflows "recall" (recall none)
  perform (Call.step_add_step id n) =
      step_action E invoke "add_step" active_workflows "add_step" id (add_new_step E (some id) n)
  perform (Call.step_transit id to_state) =
      step_action E invoke "transit" active_workflows "transit" id (transit_to id to_state)
  perform (Call.recover_step id) =
      step_action E invoke "recover_step" active_workflows "recover_step" id (recover E id)
  perform (Call.step_add_task id t) =
      step_action E invoke "add_task" active_workflows "task_added" id (dispatch_task E t)
  perform (Call.step_memorize id kvs) =
      step_action E invoke "memorize" active_workflows "memorize" id (step_memorize id kvs)
  perform (Call.step_recall id) = step_action E invoke "recall" [] "recall" id (recall (some id))

-- Actions within actions, as deep as Python's recursion limit lets them nest.
unfoldable pub invoke : Engine → ℕ → Call → Run Reply
invoke E zero c = raise Failure.recursion_error
invoke E (suc depth) c = perform E (invoke E depth) c
