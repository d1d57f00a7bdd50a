-- ===== src/Navis/Runner/Lifecycle.antt =====
-- Creating a runner, the actions that only the manager calls, transactions, and `commit`.
use fluvius_py.Common.{
  ℕ, ◌+◌, String, Option, none, some, List, [], ◌∷◌, ◌==◌, is_some, or_default, if◌then◌else◌,
}
use fluvius_py.Common.Dict.{Dict}
use fluvius_py.Navis.Status.{WorkflowStatus, StageStatus, active_workflows, editable_workflows}
use fluvius_py.Navis.Data.{
  Uuid, Memory, Mutation, MutateCall, MutationEnvelop, StateUpdate, WorkflowActivity, WorkflowData,
  WorkflowMessage, WorkflowStage, WorkflowStep,
}
use fluvius_py.Exec.{Failure, Result, pure, raise_if, gets, modify, ◌>>=◌, ◌>>◌}
use fluvius_py.Navis.Runner.Script.{HookContext, Reply, Stage, Hook, Engine}
use fluvius_py.Navis.Runner.State.{Runner, Run}
use fluvius_py.Navis.Runner.Primitives.{
  mutate, read_clock, random_uuid, create_step, set_params, set_state,
}
use fluvius_py.Navis.Runner.Hooks.{get_state_proxy, run_hook, workflow_action}
use fluvius_py.Navis.Runner.Actions.{invoke, status_update}

-- `__init__` before the steps are loaded
abbrev pub empty_runner : WorkflowData → Runner
empty_runner w = record {
  id = w.id;
  workflow = w;
  memory = w.memory;
  params = w.params;
  stepsm = w.stepsm;
  output = w.output;
  step_proxies = [];
  mut_queue = [];
  msg_queue = [];
  act_queue = [];
  transaction_id = none;
  action_context = [];
  counter = 0;
  steps = [];
  stmap = [];
  state_proxy = HookContext.workflow_proxy w.id w;
  reads = 0;
  sent = [];
}

unfoldable pub load_steps : Engine → List WorkflowStep → Run Unit
load_steps E [] = pure tt
load_steps E (d ∷ steps) = do create_step E d; load_steps E steps

-- `WorkflowTrigger`, with the handler applied to the event's data
pub record Trigger : Type 0 where
  pub selector : Option Uuid
  pub resource_id : Option Uuid
  pub resource_name : String
  pub wfdef_key : String
  pub step_key : Option String
  pub handler : Hook

-- `trigger.step_key and trigger.selector`
abbrev pub trigger_selector : Trigger → Option Uuid
trigger_selector t = elim t.step_key [ none ↦ none | some _ ↦ t.selector ]

abbrev pub stage_record : Uuid → Uuid → String → Stage → ℕ → WorkflowStage
stage_record id workflow_id key stage idx = record {
  id = id;
  workflow_id = workflow_id;
  key = key;
  stage_name = stage.name;
  stage_type = stage.type;
  order = if stage.order == 0 then 100 + idx else stage.order;
  desc = stage.desc;
  status = StageStatus.active;
}

module _ (E : Engine) where
  unfoldable pub start_body : Run Reply
  start_body = do
    now ← read_clock E
    set_state (record (status_update WorkflowStatus.active) { ts_start = some now })
    pure Reply.runner

  unfoldable pub start : ℕ → Run Reply
  start depth =
      workflow_action E (invoke E depth) "start" (WorkflowStatus.new ∷ []) "start" start_body

  unfoldable pub trigger_body : ℕ → Trigger → Run Reply
  trigger_body depth t = do
    context ← get_state_proxy (trigger_selector t)
    run_hook E (invoke E depth) (some t.handler) context
    pure Reply.runner

  unfoldable pub trigger : ℕ → Trigger → Run Reply
  trigger depth t =
      workflow_action E (invoke E depth) "trigger" active_workflows "trigger" (trigger_body depth t)

  unfoldable pub add_participant_body : String → Uuid → Memory → Run Reply
  add_participant_body role user extra = do
    mutate (MutateCall.add_participant_call user role extra)
    pure Reply.runner

  unfoldable pub add_participant : ℕ → String → Uuid → Memory → Run Reply
  add_participant depth role user extra =
      workflow_action E (invoke E depth) "add_participant" editable_workflows "add_participant"
        (add_participant_body role user extra)

  unfoldable pub del_participant_body : String → Uuid → Run Reply
  del_participant_body role user = do
    mutate (MutateCall.del_participant_call user role)
    pure Reply.runner

  unfoldable pub del_participant : ℕ → String → Uuid → Run Reply
  del_participant depth role user =
      workflow_action E (invoke E depth) "del_participant" editable_workflows "del_participant"
        (del_participant_body role user)

  -- `update_workflow` is no action
  unfoldable pub update_workflow : StateUpdate → Run Reply
  update_workflow u = do set_state u; pure Reply.runner

  -- the loop over `gen_stages`
  unfoldable pub add_stages : ℕ → Dict Stage → Run Unit
  add_stages idx [] = pure tt
  add_stages idx ((key, stage) ∷ stages) = do
    id ← random_uuid E
    workflow_id ← gets (λ s. s.id)
    mutate (MutateCall.fields_of (Mutation.add_stage (stage_record id workflow_id key stage idx)))
    add_stages (idx + 1) stages

  -- `if params: self._set_params(params)`
  unfoldable pub set_given_params : Memory → Run Unit
  set_given_params [] = pure tt
  set_given_params (kv ∷ kvs) = set_params (kv ∷ kvs)

  unfoldable pub initialize_body : Memory → Run Reply
  initialize_body params = do
    w ← gets (λ s. s.workflow)
    mutate (MutateCall.fields_of (Mutation.initialize_workflow w))
    set_given_params params
    add_stages 0 E.stages
    pure Reply.runner

  unfoldable pub initialize : ℕ → Memory → Run Reply
  initialize depth params =
      workflow_action E (invoke E depth) "initialize" [] "initialize" (initialize_body params)

  -- `with wf.transaction(id): body`: an exception leaves the transaction open
  unfoldable pub transaction : {A : Type 0} → Uuid → Run A → Run A
  transaction id body = do
    tx ← gets (λ s. s.transaction_id)
    raise_if (is_some tx) (Failure.execution_error "P00.009")
    modify (λ s. record s { transaction_id = some id })
    result ← body
    modify (λ s. record s { transaction_id = none })
    pure result

  -- `id` is the fresh UUID that `WorkflowData` takes by default: its field has the alias `_id`, and an
  -- argument `id` is not read.
  abbrev pub new_workflow : Uuid → Option String → Uuid → String → Memory → WorkflowData
  new_workflow id title resource_id resource_name params = record {
    id = id;
    title = or_default title E.title;
    wfdef_key = E.wfdef_key;
    wfdef_rev = 0;
    namespace = none;
    resource_id = resource_id;
    resource_name = some resource_name;
    status = some WorkflowStatus.new;
    paused = none;
    progress = record { part = 0; whole = 1 };
    ts_start = none;
    ts_expire = none;
    ts_finish = none;
    steps = [];
    params = params;
    memory = [];
    stepsm = [];
    output = [];
  }

  -- `cls(wf_data)`
  unfoldable pub load_runner : WorkflowData → Result Unit × Runner
  load_runner w = load_steps E w.steps (empty_runner w)

  unfoldable pub create_workflow :
      ℕ → Uuid → Option String → Uuid → String → Memory → Result Reply × Runner
  create_workflow depth id title resource_id resource_name params =
      transaction id (initialize depth params)
        (empty_runner (new_workflow id title resource_id resource_name params))

-- `commit` empties the three queues
pub record Committed : Type 0 where
  pub mutations : List MutationEnvelop
  pub messages : List WorkflowMessage
  pub activities : List WorkflowActivity

unfoldable pub commit : Runner → Committed × Runner
commit s = (
  record { mutations = s.mut_queue; messages = s.msg_queue; activities = s.act_queue },
  record s { mut_queue = []; msg_queue = []; act_queue = [] },
)
