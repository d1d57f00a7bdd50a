-- ===== src/Navis/Persist/Tests.antt =====
-- A database of two tables of rows in memory, and the theorem on persisting at the example workflow.
use fluvius_py.Common.{
  ◌≡◌, refl, false, Option, none, some, str_eq, eq_refl, if◌then◌else◌, inl, inr, Bool-cases,
}
use fluvius_py.Common.Dict.{get}
use mathlib.Core.Option.{map as option_map}
use fluvius_py.Navis.Data.{Uuid, WorkflowStep, set_step}
use fluvius_py.Navis.Runner.Actions.{invoke}
use fluvius_py.Navis.Persist.Defs.{
  TableWrite, persist, StateRow, initial_row, update_row, on_state, on_step, Database, write_all,
}
use fluvius_py.Navis.Persist.Sync.{IsStored}
use fluvius_py.Navis.Persist.Stored.{persist-IsStored}
use fluvius_py.Navis.Examples.{example_engine, active_data, active_runner, add_review}

record Tables : Type 0 where
  states : Uuid → Option StateRow
  steps : Uuid → Option WorkflowStep

-- the row of `id` changed by `f`
abbrev changed : {A : Type 0} → Uuid → (A → A) → (Uuid → Option A) → Uuid → Option A
changed id f rows k = if str_eq id k then option_map f (rows k) else rows k

abbrev added : {A : Type 0} → Uuid → A → (Uuid → Option A) → Uuid → Option A
added id a rows k = if str_eq id k then some a else rows k

abbrev write_tables : TableWrite → Tables → Tables
write_tables (TableWrite.insert_state w) db = record db {
  states = added w.id (initial_row w) db.states;
}
write_tables (TableWrite.update_state id u) db = record db {
  states = changed id (update_row u) db.states;
}
write_tables (TableWrite.update_memory id m) db = record db {
  states = changed id (λ r. record r { memory = some m }) db.states;
}
write_tables (TableWrite.update_params id m) db = record db {
  states = changed id (λ r. record r { params = some m }) db.states;
}
write_tables (TableWrite.update_output id m) db = record db {
  states = changed id (λ r. record r { output = some m }) db.states;
}
write_tables (TableWrite.insert_step d) db = record db { steps = added d.id d db.steps }
write_tables (TableWrite.update_step id u) db = record db {
  steps = changed id (set_step u) db.steps;
}
write_tables (TableWrite.update_step_memory id m) db = record db {
  steps = changed id (λ d. record d { memory = some m }) db.steps;
}
write_tables _ db = db

module _ {A : Type 0} where
  changed_eq :
      (id : Uuid) (f : A → A) (rows : Uuid → Option A) (a : A)
      → rows id ≡ some a
      → changed id f rows id ≡ some (f a)
  changed_eq id f rows a h = rw (eq_refl id, h) refl

  changed_ne :
      (id k : Uuid) (f : A → A) (rows : Uuid → Option A)
      → str_eq k id ≡ false
      → changed k f rows id ≡ rows id
  changed_ne id k f rows h = rw h refl

  changed-none :
      (id k : Uuid) (f : A → A) (rows : Uuid → Option A)
      → rows id ≡ none
      → changed k f rows id ≡ none
  changed-none id k f rows h = elim (Bool-cases (str_eq k id)) [
    | inl e ↦ rw (e, h) refl
    | inr e ↦ rw (e, h) refl
  ]

  added_eq : (id : Uuid) (a : A) (rows : Uuid → Option A) → added id a rows id ≡ some a
  added_eq id a rows = rw (eq_refl id) refl

  added_ne :
      (id k : Uuid) (a : A) (rows : Uuid → Option A)
      → str_eq k id ≡ false
      → added k a rows id ≡ rows id
  added_ne id k a rows h = rw h refl

same_states :
    (id : Uuid) (w : TableWrite) (db : Tables)
    → on_state w ≡ false
    → (write_tables w db).states id ≡ db.states id
same_states id (TableWrite.insert_state w) db h = absurd (cc h)
same_states id (TableWrite.update_state k u) db h = absurd (cc h)
same_states id (TableWrite.update_memory k m) db h = absurd (cc h)
same_states id (TableWrite.update_params k m) db h = absurd (cc h)
same_states id (TableWrite.update_output k m) db h = absurd (cc h)
same_states id _ db h = refl

same_steps :
    (id : Uuid) (w : TableWrite) (db : Tables)
    → on_step w ≡ false
    → (write_tables w db).steps id ≡ db.steps id
same_steps id (TableWrite.insert_step d) db h = absurd (cc h)
same_steps id (TableWrite.update_step k u) db h = absurd (cc h)
same_steps id (TableWrite.update_step_memory k m) db h = absurd (cc h)
same_steps id _ db h = refl

abbrev example_database : Database
example_database = record {
  Db = Tables;
  write = write_tables;
  state_row = λ id db. db.states id;
  step_row = λ id db. db.steps id;
  state-update = λ id u db r h. changed_eq id _ db.states r h;
  state-memory = λ id m db r h. changed_eq id _ db.states r h;
  state-output = λ id m db r h. changed_eq id _ db.states r h;
  state-other = same_states;
  step-insert = λ d db h. added_eq d.id d db.steps;
  step-insert_ne = λ id d db h. added_ne id d.id d db.steps h;
  step-update = λ id u db d h. changed_eq id _ db.steps d h;
  step-update_ne = λ id k u db h. changed_ne id k _ db.steps h;
  step-other = same_steps;
  step-memory = λ id m db d h. changed_eq id _ db.steps d h;
  step-memory_ne = λ id k m db h. changed_ne id k _ db.steps h;
  step-memory_none = λ id k m db h. changed-none id k _ db.steps h;
}

-- the rows of a workflow that is active and has no steps yet
abbrev example_tables : Tables
example_tables = record {
  states = λ id. if str_eq "loan-1" id then some (initial_row active_data) else none;
  steps = λ id. none;
}

example-IsStored : IsStored example_database example_tables active_runner
unfolding get initial_row
example-IsStored = (
  (
    initial_row active_data,
    refl,
    record {
      same_status = refl;
      same_paused = refl;
      same_progress = refl;
      same_ts_start = refl;
      same_memory = refl;
      same_output = refl;
    },
  ),
  record { step = λ id d p. absurd (cc p); fresh = λ id p. refl },
)

persist-IsStored_example :
    let after = persist (invoke example_engine 3 add_review active_runner).1 in
    IsStored example_database (write_all example_database after.0 example_tables) after.1
persist-IsStored_example =
    persist-IsStored example_database example_engine 3 add_review active_runner example_tables refl
      (λ p. absurd (cc p)) refl example-IsStored
