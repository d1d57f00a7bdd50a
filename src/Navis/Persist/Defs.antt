-- ===== src/Navis/Persist/Defs.antt =====
-- The handlers of the mutations, and the tables that they write to.
use fluvius_py.Common.{
  ◌≡◌, String, Option, none, some, List, [], ◌∷◌, ◌++◌, str_eq, Bool, true, false, or_default,
}
use fluvius_py.Navis.Status.{WorkflowStatus}
use fluvius_py.Navis.Data.{
  Uuid, Time, Memory, Ratio, WorkflowStep, WorkflowStage, WorkflowTask, WorkflowData, Mutation,
  MutationEnvelop, StateUpdate, StepUpdate, WorkflowActivity, WorkflowMessage, set_step,
}
use fluvius_py.Navis.Runner.State.{Runner}
use fluvius_py.Navis.Runner.Lifecycle.{commit}

-- The calls of the transaction object: each names its table and the row.
pub data TableWrite : Type 0 where
  insert_workflow : WorkflowData → TableWrite
  insert_state : WorkflowData → TableWrite
  update_state : Uuid → StateUpdate → TableWrite
  update_memory : Uuid → Memory → TableWrite
  update_params : Uuid → Memory → TableWrite
  update_output : Uuid → Memory → TableWrite
  insert_step : WorkflowStep → TableWrite
  update_step : Uuid → StepUpdate → TableWrite
  update_step_memory : Uuid → Memory → TableWrite
  insert_participant : Uuid → Uuid → String → TableWrite
  remove_participant : Uuid → Option Uuid → TableWrite
  insert_stage : Uuid → WorkflowStage → TableWrite
  insert_task : Uuid → WorkflowTask → TableWrite
  insert_mutation : MutationEnvelop → TableWrite
  insert_message : WorkflowMessage → TableWrite
  insert_activity : WorkflowActivity → TableWrite

-- `_persist_single_mutation`: the handler of the mutation's key; `add-role` has none
unfoldable pub persist_mutation : Uuid → Mutation → List TableWrite
persist_mutation id (Mutation.initialize_workflow w) =
    TableWrite.insert_workflow w ∷ TableWrite.insert_state w ∷ []
persist_mutation id (Mutation.set_state u) = TableWrite.update_state id u ∷ []
persist_mutation id (Mutation.add_step d) = TableWrite.insert_step d ∷ []
persist_mutation id (Mutation.update_step step_id u) = TableWrite.update_step step_id u ∷ []
persist_mutation id (Mutation.set_memory m) = TableWrite.update_memory id m ∷ []
persist_mutation id (Mutation.set_params m) = TableWrite.update_params id m ∷ []
persist_mutation id (Mutation.set_output m) = TableWrite.update_output id m ∷ []
persist_mutation id (Mutation.set_step_memory step_id m) =
    TableWrite.update_step_memory step_id m ∷ []
persist_mutation id (Mutation.add_participant user role) =
    TableWrite.insert_participant id user role ∷ []
persist_mutation id (Mutation.del_participant user) = TableWrite.remove_participant id user ∷ []
persist_mutation id (Mutation.add_stage stage) = TableWrite.insert_stage id stage ∷ []
persist_mutation id (Mutation.add_task task) = TableWrite.insert_task id task ∷ []
persist_mutation id (Mutation.add_role name) = []

-- `persist_mutations`: each mutation is written, then logged
unfoldable pub persist_mutations : List MutationEnvelop → List TableWrite
persist_mutations [] = []
persist_mutations (e ∷ queue) =
    persist_mutation e.workflow_id e.mutation
    ++ (TableWrite.insert_mutation e ∷ persist_mutations queue)

unfoldable pub persist_messages : List WorkflowMessage → List TableWrite
persist_messages [] = []
persist_messages (m ∷ queue) = TableWrite.insert_message m ∷ persist_messages queue

unfoldable pub persist_activities : List WorkflowActivity → List TableWrite
persist_activities [] = []
persist_activities (a ∷ queue) = TableWrite.insert_activity a ∷ persist_activities queue

-- `persist`: the queues are taken, and written in this order
unfoldable pub persist : Runner → List TableWrite × Runner
unfolding commit
persist s =
    let (c, t) = commit s in
    (
      persist_mutations c.mutations
          ++ (persist_messages c.messages ++ persist_activities c.activities),
      t,
    )

-- A row of `workflow_state`; a column that was never written is null.
pub record StateRow : Type 0 where
  pub status : Option WorkflowStatus
  pub paused : Option WorkflowStatus
  pub progress : Ratio
  pub ts_start : Option Time
  pub memory : Option Memory
  pub params : Option Memory
  pub output : Option Memory

-- `workflow_state_values`: the fields of the model that are not excluded from its dump
unfoldable pub initial_row : WorkflowData → StateRow
initial_row w = record {
  status = w.status;
  paused = w.paused;
  progress = w.progress;
  ts_start = w.ts_start;
  memory = none;
  params = none;
  output = none;
}

-- the column's new value, if the dump without nulls has one
abbrev pub given : {A : Type 0} → Option (Option A) → Option A → Option A
given none old = old
given (some none) old = old
given (some (some a)) old = some a

-- `_persist_set_state`: `model_dump(exclude_none=True)`
unfoldable pub update_row : StateUpdate → StateRow → StateRow
update_row u r = record r {
  status = given u.status r.status;
  paused = given u.paused r.paused;
  progress = or_default u.progress r.progress;
  ts_start = elim u.ts_start [ none ↦ r.ts_start | some t ↦ some t ];
}

-- Which table of the two that are read back a write is for.
abbrev pub on_state : TableWrite → Bool
on_state (TableWrite.insert_state _) = true
on_state (TableWrite.update_state _ _) = true
on_state (TableWrite.update_memory _ _) = true
on_state (TableWrite.update_params _ _) = true
on_state (TableWrite.update_output _ _) = true
on_state _ = false

abbrev pub on_step : TableWrite → Bool
on_step (TableWrite.insert_step _) = true
on_step (TableWrite.update_step _ _) = true
on_step (TableWrite.update_step_memory _ _) = true
on_step _ = false

-- The database behind the data manager, which is not part of this program: an update changes the
-- columns that it names in the row that it names, an insert adds a row, and nothing else changes.
pub record Database : Type 1 where
  pub Db : Type 0
  pub write : TableWrite → Db → Db
  pub state_row : Uuid → Db → Option StateRow
  pub step_row : Uuid → Db → Option WorkflowStep
  pub state-update :
      (id : Uuid) (u : StateUpdate) (db : Db) (r : StateRow)
      → state_row id db ≡ some r
      → state_row id (write (TableWrite.update_state id u) db) ≡ some (update_row u r)
  pub state-memory :
      (id : Uuid) (m : Memory) (db : Db) (r : StateRow)
      → state_row id db ≡ some r
      → state_row id (write (TableWrite.update_memory id m) db)
        ≡ some (record r { memory = some m })
  pub state-output :
      (id : Uuid) (m : Memory) (db : Db) (r : StateRow)
      → state_row id db ≡ some r
      → state_row id (write (TableWrite.update_output id m) db)
        ≡ some (record r { output = some m })
  pub state-other :
      (id : Uuid) (w : TableWrite) (db : Db)
      → on_state w ≡ false
      → state_row id (write w db) ≡ state_row id db
  pub step-insert :
      (d : WorkflowStep) (db : Db)
      → step_row d.id db ≡ none
      → step_row d.id (write (TableWrite.insert_step d) db) ≡ some d
  pub step-insert_ne :
      (id : Uuid) (d : WorkflowStep) (db : Db)
      → str_eq d.id id ≡ false
      → step_row id (write (TableWrite.insert_step d) db) ≡ step_row id db
  pub step-update :
      (id : Uuid) (u : StepUpdate) (db : Db) (d : WorkflowStep)
      → step_row id db ≡ some d
      → step_row id (write (TableWrite.update_step id u) db) ≡ some (set_step u d)
  pub step-update_ne :
      (id k : Uuid) (u : StepUpdate) (db : Db)
      → str_eq k id ≡ false
      → step_row id (write (TableWrite.update_step k u) db) ≡ step_row id db
  pub step-other :
      (id : Uuid) (w : TableWrite) (db : Db)
      → on_step w ≡ false
      → step_row id (write w db) ≡ step_row id db
  pub step-memory :
      (id : Uuid) (m : Memory) (db : Db) (d : WorkflowStep)
      → step_row id db ≡ some d
      → step_row id (write (TableWrite.update_step_memory id m) db)
        ≡ some (record d { memory = some m })
  pub step-memory_ne :
      (id k : Uuid) (m : Memory) (db : Db)
      → str_eq k id ≡ false
      → step_row id (write (TableWrite.update_step_memory k m) db) ≡ step_row id db
  pub step-memory_none :
      (id k : Uuid) (m : Memory) (db : Db)
      → step_row id db ≡ none
      → step_row id (write (TableWrite.update_step_memory k m) db) ≡ none

unfoldable pub write_all : (D : Database) → List TableWrite → D.Db → D.Db
write_all D [] db = db
write_all D (w ∷ ws) db = write_all D ws (D.write w db)
