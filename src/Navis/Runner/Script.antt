-- ===== src/Navis/Runner/Script.antt =====
-- What user code may do in a hook: it is a Python function that gets a proxy, yields messages,
-- raises, and calls the actions that proxies offer, each with the result it got before.
use fluvius_py.Common.{ℕ, String, Bool, Option, none, some, List, str_eq, if◌then◌else◌}
use fluvius_py.Common.Dict.{Dict}
use fluvius_py.Navis.Data.{Uuid, Memory, WorkflowStep, WorkflowData}
use fluvius_py.Exec.{Failure, Result}

-- `StepStateProxy`: the step's id, and the step's data when the proxy was made
pub record StepProxy : Type 0 where
  pub id : Uuid
  pub snapshot : WorkflowStep

-- What a hook gets: the workflow's proxy, a step's proxy, or the id of a step.
pub data HookContext : Type 0 where
  workflow_proxy : Uuid → WorkflowData → HookContext
  step_proxy : StepProxy → HookContext
  step_id : Uuid → HookContext

-- What an action returns: the runner, a proxy, or what was recalled.
pub data Reply : Type 0 where
  runner : Reply
  proxy : HookContext → Reply
  recalled : Memory → Reply

pub record NewStep : Type 0 where
  pub step_key : String
  pub selector : Option Uuid
  pub title : Option String
  pub memory : Memory

pub record NewTask : Type 0 where
  pub src_step : String
  pub task_key : String
  pub resource_name : Option String
  pub resource_id : Option Uuid
  pub name : Option String
  pub desc : Option String

-- The actions that the two kinds of proxy offer; those marked external are not among them.
pub data Call : Type 0 where
  cancel abort pause resume recall : Call
  add_task : NewTask → Call
  cancel_task : String → Call
  transit_step : Uuid → String → Call
  add_step : NewStep → Call
  memorize : Memory → Call
  output : Memory → Call
  step_add_step : Uuid → NewStep → Call
  step_transit : Uuid → String → Call
  recover_step : Uuid → Call
  step_add_task : Uuid → NewTask → Call
  step_memorize : Uuid → Memory → Call
  step_recall : Uuid → Call

pub data Script : Type 0 where
  finish : Script
  emit : String → Script → Script
  throw : Failure → Script
  call : Call → (Result Reply → Script) → Script

pub record Hook : Type 0 where
  pub qualname : String
  pub body : HookContext → Script

-- A method marked `@transition`: the origins it allows and does not allow, and the hook, which also
-- gets the state that the step leaves.
pub record Transition : Type 0 where
  pub allowed : List String
  pub unallowed : List String
  pub qualname : String
  pub body : HookContext → String → Script

-- the class attributes of a subclass of `Step`
pub record StepClass : Type 0 where
  pub title : String
  pub doc : Option String
  pub stage_key : String
  pub multi : Bool
  pub states : List String
  pub transitions : Dict Transition

-- the fields of `Stage`
pub record Stage : Type 0 where
  pub name : String
  pub type : String
  pub order : ℕ
  pub desc : Option String

-- A class of runners: the workflow's definition, and what the engine takes from outside: the UUID
-- functions, the n-th reading of the clock and of the random UUIDs, the text of `key-n`, and whether
-- tasks can be sent.
pub record Engine : Type 0 where
  pub wfdef_key : String
  pub title : String
  pub revision : ℕ
  pub steps : Dict StepClass
  pub stages : Dict Stage
  pub hooks : Dict Hook
  pub uuid_genf : String → Uuid → Uuid
  pub uuid_genr : ℕ → Uuid
  pub timestamp : ℕ → ℕ
  pub numbered : String → ℕ → String
  pub loop_running : Bool
  pub send_fails : NewTask → Bool

-- the hooks that the class `Workflow` itself has, each with one message
unfoldable pub base_hook : String → Option Hook
base_hook name =
    if str_eq name "started"
    then some (says "Workflow.on_started" "ON_START")
    else if str_eq name "cancelled"
    then some (says "Workflow.on_cancelled" "ON_CANCELLED")
    else if str_eq name "finished"
    then some (says "Workflow.on_finished" "ON_FINISH")
    else if str_eq name "reconciled"
    then some (says "Workflow.on_reconciled" "ON_FINISHED")
    else if str_eq name "degraded"
    then some (says "Workflow.on_degraded" "ON_DEGRADED")
    else none
  where
    says : String → String → Hook
    says source msg = record { qualname = source; body = λ _. Script.emit msg Script.finish }
