-- ===== src/Navis/Runner/Hooks.antt =====
-- Running user code, and the two decorators that make a method an action.
use fluvius_py.Common.{
  ℕ, String, Bool, true, false, not, ◌&&◌, Option, none, some, List, [], ◌∷◌, ◌++◌, str_eq, any,
  is_some, if◌then◌else◌,
}
use fluvius_py.Common.Dict.{get, put}
use fluvius_py.Navis.Status.{WorkflowStatus, workflow_in}
use fluvius_py.Navis.Data.{Uuid, WorkflowStep, WorkflowActivity, WorkflowMessage, StepUpdate}
use fluvius_py.Exec.{Failure, ok, raised, pure, raise, raise_if, gets, modify, ◌>>=◌, ◌>>◌}
use fluvius_py.Navis.Runner.Script.{
  StepProxy, HookContext, Reply, Call, Script, Hook, Transition, Engine, base_hook,
}
use fluvius_py.Navis.Runner.State.{ActionContext, Runner, Run}
use fluvius_py.Navis.Runner.Primitives.{read_clock, step_class, find_step, update_step}
use fluvius_py.Navis.Runner.Progress.{reconcile}

abbrev pub message_of : Runner → String → String → ℕ → WorkflowMessage
message_of s source content now = record {
  workflow_id = s.id;
  timestamp = now;
  source = source;
  content = content;
}

-- `self._msg_queue.put(wfmsg)`
unfoldable pub put_message : Engine → String → String → Run Unit
put_message E source content = do
  now ← read_clock E
  modify (λ s. record s { msg_queue = s.msg_queue ++ message_of s source content now ∷ [] })

-- `log_activity`
abbrev pub activity_of : String → Option Uuid → Runner → WorkflowActivity
activity_of name step_id s = record {
  workflow_id = s.id;
  transaction_id = s.transaction_id;
  activity_name = name;
  step_id = step_id;
  order = s.counter;
}

abbrev pub log_at : String → List ActionContext → Run Unit
log_at name [] s = (raised Failure.index_error, s)
log_at name (a ∷ stack) s =
    (ok tt, record s { act_queue = s.act_queue ++ activity_of name a.step_id s ∷ [] })

unfoldable pub log_activity : String → Run Unit
log_activity name s = log_at name s.action_context s

unfoldable pub push_context : String → Option Uuid → Run Unit
push_context name step_id = modify λ s. record s {
  action_context = record { action_name = name; step_id = step_id } ∷ s.action_context;
}

-- `self._action_context.pop()`
abbrev pub pop_stack : List ActionContext → List ActionContext
pop_stack [] = []
pop_stack (a ∷ stack) = stack

unfoldable pub pop_context : Run Unit
pop_context = modify (λ s. record s { action_context = pop_stack s.action_context })

-- `get_state_proxy`
abbrev pub cache_proxy : Uuid → Uuid → WorkflowStep → Runner → Runner
cache_proxy selector id d s = record s {
  step_proxies = put selector (record { id = id; snapshot = d }) s.step_proxies;
}

unfoldable pub make_proxy : Uuid → Option Uuid → Run HookContext
make_proxy selector none = raise (Failure.execution_error "P00.101")
make_proxy selector (some id) = do
  d ← find_step id
  modify (cache_proxy selector id d)
  pure (HookContext.step_proxy (record { id = id; snapshot = d }))

unfoldable pub cached_proxy : Uuid → Option StepProxy → Run HookContext
cached_proxy selector (some p) = pure (HookContext.step_proxy p)
cached_proxy selector none = do
  target ← gets (λ s. get selector s.stmap)
  make_proxy selector target

unfoldable pub get_state_proxy : Option Uuid → Run HookContext
get_state_proxy none = gets (λ s. s.state_proxy)
get_state_proxy (some selector) = do
  cached ← gets (λ s. get selector s.step_proxies)
  cached_proxy selector cached

-- `validate_transaction`; no group stands for no restriction
abbrev pub status_allowed : List WorkflowStatus → Option WorkflowStatus → Bool
status_allowed [] status = true
status_allowed (a ∷ group) none = false
status_allowed (a ∷ group) (some s) = workflow_in (a ∷ group) s

unfoldable pub validate_transaction : List WorkflowStatus → Run Unit
validate_transaction allowed = do
  tx ← gets (λ s. s.transaction_id)
  raise_if (not (is_some tx)) (Failure.execution_error "P00.001")
  status ← gets (λ s. s.workflow.status)
  raise_if (not (status_allowed allowed status)) (Failure.execution_error "P00.002")

abbrev pub is_empty {ℓ} : {A : Type ℓ} → List A → Bool
is_empty [] = true
is_empty (x ∷ xs) = false

-- the hook `on_<name>` of the workflow's class, or of the class `Workflow`
unfoldable pub named_hook : Engine → String → Option Hook
named_hook E name = elim (get name E.hooks) [ none ↦ base_hook name | some h ↦ some h ]

-- The guards of a transition that has a handler. Its states are lists; a text, in which Python's `in`
-- would look for a part, is not modelled.
abbrev pub origin_refused : Transition → String → Option Failure
origin_refused t from_state =
    if not (is_empty t.allowed) && not (any (str_eq from_state) t.allowed)
    then some (Failure.execution_error "P00.007")
    else if any (str_eq from_state) t.unallowed
    then some (Failure.execution_error "P00.008")
    else none

unfoldable pub raise_failure : Option Failure → Run Unit
raise_failure none = pure tt
raise_failure (some e) = raise e

abbrev pub to_state_update : String → ℕ → StepUpdate
to_state_update to_state now = record {
  stm_state = some to_state;
  stm_label = none;
  status = none;
  ts_finish = none;
  ts_transit = some now;
}

-- the check that a workflow has steps once it is started
abbrev pub starts_empty : String → Runner → Bool
starts_empty name s = str_eq name "start" && is_empty s.steps

-- `invoke` performs an action that a hook calls.
module _ (E : Engine) (invoke : Call → Run Reply) where
  unfoldable pub run_script : String → Script → Run Unit
  run_script source Script.finish = pure tt
  run_script source (Script.emit msg rest) = do put_message E source msg; run_script source rest
  run_script source (Script.throw e) = raise e
  run_script source (Script.call c next) =
      λ s. let (r, t) = invoke c s in run_script source (next r) t

  unfoldable pub run_hook : Option Hook → HookContext → Run Unit
  run_hook none context = pure tt
  run_hook (some h) context = run_script h.qualname (h.body context)

  unfoldable pub run_transition : Option Transition → WorkflowStep → Run Unit
  unfolding raise_failure
  run_transition none d = pure tt
  run_transition (some t) d = do
    raise_failure (origin_refused t d.stm_state)
    context ← get_state_proxy (some d.selector)
    run_script t.qualname (t.body context d.stm_state)

  -- `_transit` of the step that stands under `id`
  unfoldable pub transit : Uuid → WorkflowStep → String → Run Unit
  transit id d to_state = do
    c ← step_class E d.step_key
    raise_if (not (any (str_eq to_state) c.states)) (Failure.execution_error "P00.102")
    if str_eq to_state d.stm_state then pure tt else do
      run_transition (get to_state c.transitions) d
      now ← read_clock E
      update_step E id (to_state_update to_state now)

  -- the decorator `workflow_action`
  unfoldable pub workflow_action : String → List WorkflowStatus → String → Run Reply → Run Reply
  workflow_action name allowed hook_name body = do
    validate_transaction allowed
    push_context name none
    result ← body
    context ← gets (λ s. s.state_proxy)
    run_hook (named_hook E hook_name) context
    hollow ← gets (starts_empty name)
    raise_if hollow (Failure.configuration_error "P00.015")
    log_activity name
    pop_context
    pure result

  -- the decorator `step_action`: the steps are reconciled after the hook
  unfoldable pub step_action : String → List WorkflowStatus → String → Uuid → Run Reply → Run Reply
  step_action name allowed hook_name step_id body = do
    validate_transaction allowed
    push_context name (some step_id)
    result ← body
    run_hook (named_hook E hook_name) (HookContext.step_id step_id)
    reconcile
    log_activity name
    pop_context
    pure result
