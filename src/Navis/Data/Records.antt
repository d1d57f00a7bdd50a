-- ===== src/Navis/Data/Records.antt =====
-- navis/engine/datadef.py
use fluvius_py.Common.{ℕ, ◌*◌, ◌==◌, Bool, String, Option, List}
use fluvius_py.Common.Dict.{Dict}
use fluvius_py.Navis.Status.{StepStatus, WorkflowStatus, StageStatus, TaskStatus}

abbrev pub Uuid : Type 0
Uuid = String

abbrev pub Time : Type 0
Time = ℕ

-- A value that user code stores: the engine only passes it on.
pub data Value : Type 0 where
  null : Value
  number : ℕ → Value
  text : String → Value

abbrev pub Memory : Type 0
Memory = Dict Value

-- `progress` is a float that is the quotient of two counts of steps; the quotients of numbers below
-- 2 ^ 26 are equal as floats exactly when they are equal as fractions.
pub record Ratio : Type 0 where
  pub part : ℕ
  pub whole : ℕ

abbrev pub ratio_eq : Ratio → Ratio → Bool
ratio_eq p q = p.part * q.whole == q.part * p.whole

pub record WorkflowStep : Type 0 where
  pub id : Uuid
  pub title : String
  pub desc : Option String
  pub index : ℕ
  pub message : Option String
  pub status : StepStatus
  pub selector : Uuid
  pub workflow_id : Uuid
  pub step_key : String
  pub stage_key : String
  pub src_step : Option Uuid
  pub stm_state : String
  pub stm_label : Option String
  pub memory : Option Memory
  pub ts_due : Option Time
  pub ts_start : Option Time
  pub ts_finish : Option Time
  pub ts_transit : Option Time

pub record WorkflowStage : Type 0 where
  pub id : Uuid
  pub workflow_id : Uuid
  pub key : String
  pub stage_name : String
  pub stage_type : String
  pub order : ℕ
  pub desc : Option String
  pub status : StageStatus

pub record WorkflowTask : Type 0 where
  pub id : Uuid
  pub workflow_id : Uuid
  pub step_id : String
  pub name : Option String
  pub status : TaskStatus
  pub desc : Option String

-- `status` is optional here: `set` copies a frozen model without validating what it is given.
pub record WorkflowData : Type 0 where
  pub id : Uuid
  pub title : String
  pub wfdef_key : String
  pub wfdef_rev : ℕ
  pub namespace : Option String
  pub resource_id : Uuid
  pub resource_name : Option String
  pub status : Option WorkflowStatus
  pub paused : Option WorkflowStatus
  pub progress : Ratio
  pub ts_start : Option Time
  pub ts_expire : Option Time
  pub ts_finish : Option Time
  pub steps : List WorkflowStep
  pub params : Memory
  pub memory : Memory
  pub stepsm : Dict Memory
  pub output : Memory
