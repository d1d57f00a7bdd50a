-- ===== src/Navis/Runner/Moves.antt =====
-- The atomic writes of a runner as a relation: each constructor is one place where the methods of
-- `WorkflowRunner` assign a field or put to a queue, with what holds there.
use fluvius_py.Common.{
  ◌+◌, ◌≡◌, String, true, false, Option, none, some, [], ◌∷◌, ◌++◌, str_eq, any,
}
use fluvius_py.Common.Dict.{get, put, update}
use fluvius_py.Navis.Status.{StepStatus, WorkflowStatus}
use fluvius_py.Navis.Data.{
  Uuid, Time, Memory, Ratio, WorkflowStep, WorkflowTask, WorkflowData, WorkflowMessage, Mutation,
  StateUpdate, StepUpdate, set_workflow, set_step,
}
use fluvius_py.Navis.Runner.Script.{StepClass, NewTask, Engine}
use fluvius_py.Navis.Runner.State.{ActionContext, Runner}
use fluvius_py.Navis.Runner.Primitives.{
  begin_state, finish_state, finish_label, enqueue, store_step, step_memory, new_step_data,
}
use fluvius_py.Navis.Runner.Hooks.{activity_of, cache_proxy, pop_stack}
use fluvius_py.Navis.Runner.Actions.{no_update, status_update}

-- The arguments with which `_set_state` gets through its guard, by the status it finds.
pub data StateWrite (w : WorkflowData) : StateUpdate → Type 0 where
  starts :
      (now : Time)
      → w.status ≡ some WorkflowStatus.new
      → StateWrite w (record (status_update WorkflowStatus.active) { ts_start = some now })
  cancels_new :
      w.status ≡ some WorkflowStatus.new → StateWrite w (status_update WorkflowStatus.cancelled)
  cancels_active :
      w.status ≡ some WorkflowStatus.active → StateWrite w (status_update WorkflowStatus.cancelled)
  pauses :
      w.status ≡ some WorkflowStatus.active
      → StateWrite w (record no_update {
        status = some (some WorkflowStatus.paused);
        paused = some (some WorkflowStatus.active);
      })
  blanks :
      w.status ≡ some WorkflowStatus.paused
      → w.paused ≡ none
      → StateWrite w (record no_update { status = some none; paused = some none })
  progresses : (p : Ratio) → StateWrite w (record no_update { progress = some p })

-- The arguments with which `_update_step` writes a step of class `c`.
pub data StepWrite (c : StepClass) (d : WorkflowStep) : StepUpdate → Type 0 where
  finishes :
      (now later : Time)
      → any (str_eq finish_state) c.states ≡ true
      → StepWrite c d (record {
        stm_state = some finish_state;
        stm_label = some finish_label;
        status = some StepStatus.completed;
        ts_finish = some later;
        ts_transit = some now;
      })
  resets :
      (now : Time)
      → any (str_eq begin_state) c.states ≡ true
      → StepWrite c d (record {
        stm_state = some begin_state;
        stm_label = none;
        status = none;
        ts_finish = none;
        ts_transit = some now;
      })
  enters :
      (now : Time) (state : String)
      → str_eq state finish_state ≡ false
      → any (str_eq state) c.states ≡ true
      → StepWrite c d (record {
        stm_state = some state;
        stm_label = none;
        status = some StepStatus.active;
        ts_finish = none;
        ts_transit = some now;
      })

-- the arguments with which an error is recovered from
abbrev pub recover_update : StepUpdate
recover_update = record {
  stm_state = none;
  stm_label = none;
  status = some StepStatus.active;
  ts_finish = none;
  ts_transit = none;
}

-- One change of the runner that comes with one mutation.
pub data Change (E : Engine) (s : Runner) : Mutation → Runner → Type 0 where
  state_written :
      (u : StateUpdate)
      → StateWrite s.workflow u
      → Change E s (Mutation.set_state u) (record s { workflow = set_workflow u s.workflow })
  step_written :
      (id : Uuid) (c : StepClass) (d : WorkflowStep) (u : StepUpdate)
      → get id s.steps ≡ some d
      → get d.step_key E.steps ≡ some c
      → StepWrite c d u
      → Change E s (Mutation.update_step id u) (record s { steps = put id (set_step u d) s.steps })
  step_recovered :
      (id : Uuid) (d : WorkflowStep)
      → get id s.steps ≡ some d
      → d.status ≡ StepStatus.error
      → Change E s
          (Mutation.update_step id recover_update)
          (record s { steps = put id (set_step recover_update d) s.steps })
  step_added :
      (c : StepClass) (id selector : Uuid) (src : Option Uuid) (key : String)
      (title : Option String) (now : Time)
      → get key E.steps ≡ some c
      → get id s.steps ≡ none
      → get selector s.stmap ≡ none
      → Change E s
          (Mutation.add_step (new_step_data c id selector src key title now s))
          (store_step (new_step_data c id selector src key title now s) s)
  memory_written :
      (kvs : Memory)
      → Change E s
          (Mutation.set_memory (update s.memory kvs))
          (record s { memory = update s.memory kvs })
  output_written :
      (kvs : Memory)
      → Change E s
          (Mutation.set_output (update s.output kvs))
          (record s { output = update s.output kvs })
  step_memory_written :
      (id : Uuid) (kvs : Memory)
      → Change E s
          (Mutation.set_step_memory id (update (step_memory id s) kvs))
          (record s { stepsm = put id (update (step_memory id s) kvs) s.stepsm })
  task_added : (task : WorkflowTask) → Change E s (Mutation.add_task task) s

-- What happens in a run of an action. A change is queued at the top of the action stack.
pub data Move (E : Engine) (s : Runner) : Runner → Type 0 where
  ticks : Move E s (record s { reads = s.reads + 1 })
  emits : (m : WorkflowMessage) → Move E s (record s { msg_queue = s.msg_queue ++ m ∷ [] })
  logs :
      (name : String) (id : Option Uuid)
      → Move E s (record s { act_queue = s.act_queue ++ activity_of name id s ∷ [] })
  enters : (a : ActionContext) → Move E s (record s { action_context = a ∷ s.action_context })
  leaves : Move E s (record s { action_context = pop_stack s.action_context })
  caches :
      (selector id : Uuid) (d : WorkflowStep)
      → get selector s.stmap ≡ some id
      → get id s.steps ≡ some d
      → Move E s (cache_proxy selector id d s)
  sends : (t : NewTask) → Move E s (record s { sent = s.sent ++ t ∷ [] })
  defaults : (id : Uuid) → Move E s (record s { stepsm = put id (step_memory id s) s.stepsm })
  changes :
      {t : Runner} (m : Mutation) (tx : Uuid) (a : ActionContext)
      → s.transaction_id ≡ some tx
      → Change E s m t
      → Move E s (enqueue m tx a t)

pub data Reach (E : Engine) (s : Runner) : Runner → Type 0 where
  here : Reach E s s
  next : {t u : Runner} → Reach E s t → Move E t u → Reach E s u

pub Reach-trans : {E : Engine} {s t u : Runner} → Reach E s t → Reach E t u → Reach E s u
Reach-trans r here = r
Reach-trans r (next q m) = next (Reach-trans r q) m

pub Reach-one : {E : Engine} {s t : Runner} → Move E s t → Reach E s t
Reach-one m = next here m
