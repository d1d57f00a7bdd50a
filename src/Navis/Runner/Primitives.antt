-- ===== src/Navis/Runner/Primitives.antt =====
-- The private methods of `WorkflowRunner`: each writes the runner, and queues one mutation for what
-- it wrote.
use fluvius_py.Common.{
  ◌+◌, String, Bool, false, not, Option, none, some, List, [], ◌∷◌, ◌++◌, str_eq, length, any,
  if◌then◌else◌, or_default, is_some,
}
use fluvius_py.Common.Dict.{get, put, update}
use fluvius_py.Navis.Status.{StepStatus, WorkflowStatus, workflow_in}
use fluvius_py.Navis.Data.{
  Uuid, Time, Memory, WorkflowStep, Mutation, MutateCall, MutationEnvelop, StateUpdate, StepUpdate,
  mutation_key, registered_mutations, set_workflow, set_step,
}
use fluvius_py.Exec.{Failure, ok, raised, pure, raise, raise_if, gets, modify, ◌>>=◌, ◌>>◌}
use fluvius_py.Navis.Runner.Script.{StepClass, Engine}
use fluvius_py.Navis.Runner.State.{ActionContext, Runner, Run}

abbrev pub begin_state : String
begin_state = "_CREATED"

abbrev pub finish_state : String
finish_state = "_FINISHED"

abbrev pub begin_label : String
begin_label = "NEW"

abbrev pub finish_label : String
finish_label = "DONE"

-- The envelope of one mutation, at the next order.
abbrev pub envelope : Mutation → Uuid → ActionContext → Runner → MutationEnvelop
envelope m tx a s = record {
  name = mutation_key m;
  workflow_id = s.id;
  transaction_id = some tx;
  action = a.action_name;
  mutation = m;
  order = s.counter + 1;
}

abbrev pub enqueue : Mutation → Uuid → ActionContext → Runner → Runner
enqueue m tx a s = record s {
  counter = s.counter + 1;
  mut_queue = s.mut_queue ++ envelope m tx a s ∷ [];
}

-- `mutate` in a transaction and an action: the key is looked up, then the order is counted, then the
-- arguments are validated.
unfoldable pub mutate_in : MutateCall → Uuid → ActionContext → Run Unit
mutate_in (MutateCall.fields_of m) tx a s = (ok tt, enqueue m tx a s)
mutate_in (MutateCall.add_participant_call user role []) tx a s =
    (ok tt, enqueue (Mutation.add_participant user role) tx a s)
mutate_in (MutateCall.add_participant_call user role (_ ∷ _)) tx a s =
    (raised Failure.validation_error, record s { counter = s.counter + 1 })
mutate_in (MutateCall.del_participant_call user role) tx a s =
    (raised Failure.validation_error, record s { counter = s.counter + 1 })
mutate_in (MutateCall.task_call key) tx a s =
    if any (str_eq key) registered_mutations
    then (raised Failure.validation_error, record s { counter = s.counter + 1 })
    else (raised (Failure.key_error key), s)

unfoldable pub mutate_at : MutateCall → Option Uuid → List ActionContext → Run Unit
mutate_at c none stack = raise (Failure.execution_error "P00.010")
mutate_at c (some tx) [] = raise (Failure.execution_error "P00.016")
mutate_at c (some tx) (a ∷ stack) = mutate_in c tx a

unfoldable pub mutate : MutateCall → Run Unit
mutate c s = mutate_at c s.transaction_id s.action_context s

-- `timestamp()`
unfoldable pub read_clock : Engine → Run Time
read_clock E s = (ok (E.timestamp s.reads), record s { reads = s.reads + 1 })

-- `UUID_GENR()`
unfoldable pub random_uuid : Engine → Run Uuid
random_uuid E s = (ok (E.uuid_genr s.reads), record s { reads = s.reads + 1 })

-- the guard of `_set_state`: a status is written only at ACTIVE and NEW
unfoldable pub status_locked : StateUpdate → Option WorkflowStatus → Bool
status_locked u none = elim u.status [ none ↦ false | some new ↦ is_some new ]
status_locked u (some old) = elim u.status [
  | none ↦ false
  | some none ↦ false
  | some (some _) ↦ not (workflow_in (WorkflowStatus.active ∷ WorkflowStatus.new ∷ []) old)
]

unfoldable pub set_state : StateUpdate → Run Unit
set_state u = do
  old ← gets (λ s. s.workflow.status)
  raise_if (status_locked u old) (Failure.execution_error "P00.006")
  modify (λ s. record s { workflow = set_workflow u s.workflow })
  mutate (MutateCall.fields_of (Mutation.set_state u))

-- `self.step_id_map[step_id]`
unfoldable pub find_step : Uuid → Run WorkflowStep
find_step id s = elim (get id s.steps) [
  | none ↦ (raised (Failure.key_error id), s)
  | some d ↦ (ok d, s)
]

-- `self.__steps__[step_key]`
unfoldable pub step_class : Engine → String → Run StepClass
step_class E key s = elim (get key E.steps) [
  | none ↦ (raised (Failure.key_error key), s)
  | some c ↦ (ok c, s)
]

-- The arguments that `_update_step` adds: at `_FINISHED` the step is completed, at `_CREATED` nothing
-- is added, and in every other call, also one with no state, the step is made active.
unfoldable pub complete_update : Engine → StepUpdate → Run StepUpdate
complete_update E u =
    if str_eq (or_default u.stm_state "") finish_state
    then (do
      now ← read_clock E
      pure (record u {
        status = some StepStatus.completed;
        ts_finish = some now;
        stm_label = some finish_label;
      }))
    else if str_eq (or_default u.stm_state "") begin_state
    then pure u
    else pure (record u { status = some StepStatus.active })

abbrev pub write_step : Uuid → StepUpdate → Runner → Runner
write_step id u s = elim (get id s.steps) [
  | none ↦ s
  | some d ↦ record s { steps = put id (set_step u d) s.steps }
]

unfoldable pub update_step : Engine → Uuid → StepUpdate → Run Unit
update_step E id u = do
  u' ← complete_update E u
  modify (write_step id u')
  mutate (MutateCall.fields_of (Mutation.update_step id u'))

abbrev pub store_step : WorkflowStep → Runner → Runner
store_step d s = record s { stmap = put d.selector d.id s.stmap; steps = put d.id d s.steps }

unfoldable pub create_step : Engine → WorkflowStep → Run Unit
create_step E d = do step_class E d.step_key; modify (store_step d)

-- the id of a new step: one for each key, or for each key and count of steps if it may repeat
abbrev pub new_step_id : Engine → StepClass → String → Runner → Uuid
new_step_id E c key s =
    if c.multi then E.uuid_genf (E.numbered key (length s.steps)) s.id else E.uuid_genf key s.id

abbrev pub new_step_data :
    StepClass → Uuid → Uuid → Option Uuid → String → Option String → Time → Runner → WorkflowStep
new_step_data c id selector src key title now s = record {
  id = id;
  title = or_default title c.title;
  desc = c.doc;
  index = length s.steps + 1;
  message = none;
  status = StepStatus.active;
  selector = selector;
  workflow_id = s.id;
  step_key = key;
  stage_key = c.stage_key;
  src_step = src;
  stm_state = begin_state;
  stm_label = some begin_label;
  memory = none;
  ts_due = none;
  ts_start = some now;
  ts_finish = none;
  ts_transit = none;
}

-- `_add_step`, with the new step's data
unfoldable pub add_step :
    Engine → Option Uuid → String → Option Uuid → Option String → Run WorkflowStep
add_step E src key selector title = do
  c ← step_class E key
  id ← gets (new_step_id E c key)
  taken ← gets (λ s. is_some (get id s.steps))
  raise_if taken (Failure.execution_error "P00.017")
  let sel = or_default selector id
  used ← gets (λ s. is_some (get sel s.stmap))
  raise_if used (Failure.execution_error "P011.07")
  now ← read_clock E
  d ← gets (new_step_data c id sel src key title now)
  create_step E d
  mutate (MutateCall.fields_of (Mutation.add_step d))
  pure d

-- The three writers of memory do nothing when they get no values.
unfoldable pub set_memory : Memory → Run Unit
set_memory [] = pure tt
set_memory (kv ∷ kvs) = do
  modify (λ s. record s { memory = update s.memory (kv ∷ kvs) })
  m ← gets (λ s. s.memory)
  mutate (MutateCall.fields_of (Mutation.set_memory m))

unfoldable pub set_output : Memory → Run Unit
set_output [] = pure tt
set_output (kv ∷ kvs) = do
  modify (λ s. record s { output = update s.output (kv ∷ kvs) })
  m ← gets (λ s. s.output)
  mutate (MutateCall.fields_of (Mutation.set_output m))

-- `self._stepsm.setdefault(sid, {})`
abbrev pub step_memory : Uuid → Runner → Memory
step_memory id s = or_default (get id s.stepsm) []

unfoldable pub set_step_memory : Uuid → Memory → Run Unit
set_step_memory id [] = pure tt
set_step_memory id (kv ∷ kvs) = do
  modify (λ s. record s { stepsm = put id (update (step_memory id s) (kv ∷ kvs)) s.stepsm })
  m ← gets (step_memory id)
  mutate (MutateCall.fields_of (Mutation.set_step_memory id m))

unfoldable pub set_params : Memory → Run Unit
set_params params = do
  modify (λ s. record s { params = params })
  mutate (MutateCall.fields_of (Mutation.set_params params))

-- `_get_memory`: the workflow's memory, the step's over it, and the parameters over both
unfoldable pub get_memory : Option Uuid → Run Memory
get_memory none = gets (λ s. update s.memory s.params)
get_memory (some id) = do
  modify (λ s. record s { stepsm = put id (step_memory id s) s.stepsm })
  gets (λ s. update (update s.memory (step_memory id s)) s.params)
