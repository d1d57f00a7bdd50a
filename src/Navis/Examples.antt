-- ===== src/Navis/Examples.antt =====
-- A small workflow for the tests: one class of steps, and a runner of it in each of three states.
use fluvius_py.Common.{false, true, none, some, [], ◌∷◌}
use fluvius_py.Navis.Status.{StepStatus, WorkflowStatus}
use fluvius_py.Navis.Data.{Value, WorkflowData, WorkflowStep}
use fluvius_py.Navis.Runner.Script.{StepClass, NewStep, Call, Script, Hook, Engine}
use fluvius_py.Navis.Runner.State.{Runner}
use fluvius_py.Navis.Runner.Primitives.{new_step_data}
use fluvius_py.Navis.Runner.Lifecycle.{Trigger, empty_runner, new_workflow}

abbrev pub review_class : StepClass
review_class = record {
  title = "Review";
  doc = none;
  stage_key = "intake";
  multi = false;
  states = "_CREATED" ∷ "_FINISHED" ∷ "REVIEWED" ∷ [];
  transitions = [];
}

abbrev pub new_review : NewStep
new_review = record {
  step_key = "review";
  selector = some "selector";
  title = none;
  memory = ("note", Value.text "urgent") ∷ [];
}

-- a hook that says something, adds a step, and stores what the workflow knows
abbrev pub busy_hook : Hook
busy_hook = record {
  qualname = "Example.on_added";
  body = λ context.
      Script.emit "added"
        (Script.call (Call.memorize (("seen", Value.number 1) ∷ [])) (λ r. Script.finish));
}

abbrev pub example_engine : Engine
example_engine = record {
  wfdef_key = "loan";
  title = "Loan";
  revision = 1;
  steps = ("review", review_class) ∷ [];
  stages = [];
  hooks = ("add_step", busy_hook) ∷ [];
  uuid_genf = λ key id. key;
  uuid_genr = λ n. "random";
  timestamp = λ n. n;
  numbered = λ key n. key;
  loop_running = true;
  send_fails = λ t. false;
}

abbrev pub new_data : WorkflowData
new_data = new_workflow example_engine "loan-1" none "resource-1" "loan" []

abbrev pub active_data : WorkflowData
active_data = record new_data { status = some WorkflowStatus.active }

abbrev pub paused_data : WorkflowData
paused_data = record new_data {
  status = some WorkflowStatus.paused;
  paused = some WorkflowStatus.active;
}

-- outside of a transaction
abbrev pub idle_runner : Runner
idle_runner = empty_runner active_data

abbrev pub new_runner : Runner
new_runner = record (empty_runner new_data) { transaction_id = some "tx-1" }

abbrev pub active_runner : Runner
active_runner = record idle_runner { transaction_id = some "tx-1" }

abbrev pub paused_runner : Runner
paused_runner = record (empty_runner paused_data) { transaction_id = some "tx-1" }

abbrev pub add_review : Call
add_review = Call.add_step new_review

abbrev pub example_trigger : Trigger
example_trigger = record {
  selector = none;
  resource_id = some "resource-1";
  resource_name = "loan";
  wfdef_key = "loan";
  step_key = none;
  handler = busy_hook;
}

-- a step that is completed
abbrev pub example_step : WorkflowStep
example_step =
    record (new_step_data review_class "review" "selector" none "review" none 0 active_runner) {
      status = StepStatus.completed;
      stm_state = "_FINISHED";
    }
