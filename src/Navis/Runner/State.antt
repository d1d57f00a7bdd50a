-- ===== src/Navis/Runner/State.antt =====
-- The fields of `WorkflowRunner`.
use fluvius_py.Common.{ℕ, String, Option, List}
use fluvius_py.Common.Dict.{Dict}
use fluvius_py.Navis.Data.{
  Uuid, Memory, WorkflowStep, WorkflowData, MutationEnvelop, WorkflowActivity, WorkflowMessage,
}
use fluvius_py.Exec.{Exec}
use fluvius_py.Navis.Runner.Script.{StepProxy, HookContext, NewTask}

pub record ActionContext : Type 0 where
  pub action_name : String
  pub step_id : Option Uuid

-- `steps` is `step_id_map`. `stmap` is `selector_map`: the source stores the step object under both,
-- here the selector leads to the id under which the one object stands. The top of
-- `action_context` is its head, and the queues have their oldest entry first. `reads` counts the
-- readings of the clock and of the random UUIDs, and `sent` the tasks handed to the worker.
pub record Runner : Type 0 where
  pub id : Uuid
  pub workflow : WorkflowData
  pub memory : Memory
  pub params : Memory
  pub stepsm : Dict Memory
  pub output : Memory
  pub step_proxies : Dict StepProxy
  pub mut_queue : List MutationEnvelop
  pub msg_queue : List WorkflowMessage
  pub act_queue : List WorkflowActivity
  pub transaction_id : Option Uuid
  pub action_context : List ActionContext
  pub counter : ℕ
  pub steps : Dict WorkflowStep
  pub stmap : Dict Uuid
  pub state_proxy : HookContext
  pub reads : ℕ
  pub sent : List NewTask

abbrev pub Run : Type 0 → Type 0
Run A = Exec Runner A
