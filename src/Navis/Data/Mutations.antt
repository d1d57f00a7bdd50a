-- ===== src/Navis/Data/Mutations.antt =====
-- navis/engine/mutation.py: the mutations, their registry, and the envelope that is queued.
use fluvius_py.Common.{ℕ, String, Option, none, some, or_default, List, [], ◌∷◌}
use fluvius_py.Navis.Status.{StepStatus, WorkflowStatus}
use fluvius_py.Navis.Data.Records.{
  Uuid, Time, Memory, Ratio, WorkflowStep, WorkflowStage, WorkflowTask, WorkflowData,
}

-- The keyword arguments of `_set_state`: `none` is an argument that is not given, `some none` one
-- that is given as None.
pub record StateUpdate : Type 0 where
  pub status : Option (Option WorkflowStatus)
  pub paused : Option (Option WorkflowStatus)
  pub progress : Option Ratio
  pub ts_start : Option Time

-- The keyword arguments of `_update_step`.
pub record StepUpdate : Type 0 where
  pub stm_state : Option String
  pub stm_label : Option String
  pub status : Option StepStatus
  pub ts_finish : Option Time
  pub ts_transit : Option Time

pub data Mutation : Type 0 where
  initialize_workflow : WorkflowData → Mutation
  set_state : StateUpdate → Mutation
  add_step : WorkflowStep → Mutation
  update_step : Uuid → StepUpdate → Mutation
  set_memory : Memory → Mutation
  set_params : Memory → Mutation
  set_output : Memory → Mutation
  set_step_memory : Uuid → Memory → Mutation
  add_participant : Uuid → String → Mutation
  del_participant : Option Uuid → Mutation
  add_stage : WorkflowStage → Mutation
  add_task : WorkflowTask → Mutation
  add_role : String → Mutation

-- `__key__`, the name under which a class of mutations is registered
unfoldable pub mutation_key : Mutation → String
mutation_key (Mutation.initialize_workflow _) = "initialize-workflow"
mutation_key (Mutation.set_state _) = "set-state"
mutation_key (Mutation.add_step _) = "add-step"
mutation_key (Mutation.update_step _ _) = "update-step"
mutation_key (Mutation.set_memory _) = "set-memory"
mutation_key (Mutation.set_params _) = "set-params"
mutation_key (Mutation.set_output _) = "set-output"
mutation_key (Mutation.set_step_memory _ _) = "set-step-memory"
mutation_key (Mutation.add_participant _ _) = "add-participant"
mutation_key (Mutation.del_participant _) = "del-participant"
mutation_key (Mutation.add_stage _) = "add-stage"
mutation_key (Mutation.add_task _) = "add-task"
mutation_key (Mutation.add_role _) = "add-role"

-- `REGISTRY`: the keys of the classes of mutations
abbrev pub registered_mutations : List String
registered_mutations =
    "update-step" ∷ "set-state" ∷ "add-step" ∷ "initialize-workflow" ∷ "set-params" ∷ "set-output"
    ∷ "set-memory" ∷ "set-step-memory" ∷ "add-participant" ∷ "add-role" ∷ "del-participant"
    ∷ "add-stage" ∷ "add-task" ∷ []

-- What the engine passes to `mutate`: a name and keyword arguments. The first constructor is a call
-- whose arguments are the fields of a registered class; the others are the calls that need not be.
-- The last one is of a key with the arguments `action_name`, `task` and `status`, which no class of
-- the registry takes together.
pub data MutateCall : Type 0 where
  fields_of : Mutation → MutateCall
  add_participant_call : Uuid → String → Memory → MutateCall
  del_participant_call : Uuid → String → MutateCall
  task_call : String → MutateCall

pub record MutationEnvelop : Type 0 where
  pub name : String
  pub workflow_id : Uuid
  pub transaction_id : Option Uuid
  pub action : String
  pub mutation : Mutation
  pub order : ℕ

pub record WorkflowActivity : Type 0 where
  pub workflow_id : Uuid
  pub transaction_id : Option Uuid
  pub activity_name : String
  pub step_id : Option Uuid
  pub order : ℕ

pub record WorkflowMessage : Type 0 where
  pub workflow_id : Uuid
  pub timestamp : Time
  pub source : String
  pub content : String

-- `_workflow.set(**kwargs)`
unfoldable pub set_workflow : StateUpdate → WorkflowData → WorkflowData
set_workflow u w = record w {
  status = or_default u.status w.status;
  paused = or_default u.paused w.paused;
  progress = or_default u.progress w.progress;
  ts_start = elim u.ts_start [ none ↦ w.ts_start | some t ↦ some t ];
}

-- `step._data.set(**kwargs)`
unfoldable pub set_step : StepUpdate → WorkflowStep → WorkflowStep
set_step u d = record d {
  stm_state = or_default u.stm_state d.stm_state;
  stm_label = elim u.stm_label [ none ↦ d.stm_label | some l ↦ some l ];
  status = or_default u.status d.status;
  ts_finish = elim u.ts_finish [ none ↦ d.ts_finish | some t ↦ some t ];
  ts_transit = elim u.ts_transit [ none ↦ d.ts_transit | some t ↦ some t ];
}
