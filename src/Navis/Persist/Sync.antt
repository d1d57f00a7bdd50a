-- ===== src/Navis/Persist/Sync.antt =====
-- What stands in the tables once a runner has been persisted.
use fluvius_py.Common.{
  ◌≡◌, refl, sym, ◌∙◌, ap, inl, inr, false, none, some, List, [], ◌∷◌, ◌++◌, str_eq, eq_iff,
  or_default, Bool-cases,
}
use fluvius_py.Common.Dict.{Dict, get, put, get-put_eq, get-put_ne}
use fluvius_py.Navis.Data.{
  Uuid, Memory, WorkflowStep, WorkflowData, MutationEnvelop, StateUpdate, StepUpdate, set_step,
  set_workflow,
}
use fluvius_py.Navis.Runner.State.{Runner}
use fluvius_py.Navis.Runner.Moves.{
  StateWrite, starts, cancels_new, cancels_active, pauses, blanks, progresses,
}
use fluvius_py.Navis.Runner.StatusPaths.{RemembersPause}
use fluvius_py.Navis.Persist.Defs.{
  TableWrite, persist_mutation, persist_mutations, StateRow, update_row, on_state, on_step,
  Database, write_all,
}

-- a step as its row has it, but for the memory, which its own mutations write
abbrev pub forget : WorkflowStep → WorkflowStep
forget d = record d { memory = none }

-- The row of `workflow_state` has what the runner has; a null is read as an empty memory.
pub record IsRowOf (w : WorkflowData) (memory output : Memory) (r : StateRow) : Type 0 where
  pub same_status : r.status ≡ w.status
  pub same_paused : r.paused ≡ w.paused
  pub same_progress : r.progress ≡ w.progress
  pub same_ts_start : r.ts_start ≡ w.ts_start
  pub same_memory : or_default r.memory [] ≡ memory
  pub same_output : or_default r.output [] ≡ output

module _ (D : Database) where
  abbrev pub StateStored : D.Db → Runner → Type 0
  StateStored db s =
      (r : StateRow) × (D.state_row s.id db ≡ some r) × IsRowOf s.workflow s.memory s.output r

  pub record IsStepTable (db : D.Db) (steps : Dict WorkflowStep) : Type 0 where
    pub step :
        (id : Uuid) (d : WorkflowStep)
        → get id steps ≡ some d
        → (row : WorkflowStep) × (D.step_row id db ≡ some row) × (forget row ≡ forget d)
    pub fresh : (id : Uuid) → get id steps ≡ none → D.step_row id db ≡ none

  -- The tables agree with the runner: its state, and each of its steps but for the step's memory.
  abbrev pub IsStored : D.Db → Runner → Type 0
  IsStored db s = StateStored db s × IsStepTable db s.steps

  -- one handler, then the log
  unfoldable pub write_one : MutationEnvelop → D.Db → D.Db
  write_one e db =
      D.write (TableWrite.insert_mutation e)
        (write_all D (persist_mutation e.workflow_id e.mutation) db)

  pub write_all-append :
      (xs ys : List TableWrite) (db : D.Db)
      → write_all D (xs ++ ys) db ≡ write_all D ys (write_all D xs db)
  unfolding write_all
  write_all-append [] ys db = refl
  write_all-append (x ∷ xs) ys db = write_all-append xs ys (D.write x db)

  pub write_queue-append :
      (queue : List MutationEnvelop) (e : MutationEnvelop) (db : D.Db)
      → write_all D (persist_mutations (queue ++ e ∷ [])) db
        ≡ write_one e (write_all D (persist_mutations queue) db)
  unfolding persist_mutations write_all write_one
  write_queue-append [] e db =
      write_all-append (persist_mutation e.workflow_id e.mutation)
        (TableWrite.insert_mutation e ∷ []) db
  write_queue-append (x ∷ queue) e db =
      write_all-append (persist_mutation x.workflow_id x.mutation) _ db
      ∙ write_queue-append queue e (write_one x db)
      ∙ ap (write_one e) (sym (write_all-append (persist_mutation x.workflow_id x.mutation) _ db))

  -- A write to another table keeps both.
  pub state_kept :
      (w : TableWrite) (db : D.Db) (s : Runner)
      → on_state w ≡ false
      → StateStored db s
      → StateStored (D.write w db) s
  state_kept w db s other (r, p, h) = (r, D.state-other s.id w db other ∙ p, h)

  pub steps_kept :
      (w : TableWrite) (db : D.Db) (steps : Dict WorkflowStep)
      → on_step w ≡ false
      → IsStepTable db steps
      → IsStepTable (D.write w db) steps
  steps_kept w db steps other h = record {
    step = λ id d p. let (row, q, e) = h.step id d p in (row, D.step-other id w db other ∙ q, e);
    fresh = λ id p. D.step-other id w db other ∙ h.fresh id p;
  }

  pub update_row-IsRowOf :
      (w : WorkflowData) (memory output : Memory) (u : StateUpdate) (r : StateRow)
      → StateWrite w u
      → RemembersPause w
      → IsRowOf w memory output r
      → IsRowOf (set_workflow u w) memory output (update_row u r)
  unfolding set_workflow update_row
  update_row-IsRowOf w memory output u r (starts now e) _ h = record {
    same_status = refl;
    same_paused = h.same_paused;
    same_progress = h.same_progress;
    same_ts_start = refl;
    same_memory = h.same_memory;
    same_output = h.same_output;
  }
  update_row-IsRowOf w memory output u r (cancels_new e) _ h = record {
    same_status = refl;
    same_paused = h.same_paused;
    same_progress = h.same_progress;
    same_ts_start = h.same_ts_start;
    same_memory = h.same_memory;
    same_output = h.same_output;
  }
  update_row-IsRowOf w memory output u r (cancels_active e) _ h = record {
    same_status = refl;
    same_paused = h.same_paused;
    same_progress = h.same_progress;
    same_ts_start = h.same_ts_start;
    same_memory = h.same_memory;
    same_output = h.same_output;
  }
  update_row-IsRowOf w memory output u r (pauses e) _ h = record {
    same_status = refl;
    same_paused = refl;
    same_progress = h.same_progress;
    same_ts_start = h.same_ts_start;
    same_memory = h.same_memory;
    same_output = h.same_output;
  }
  update_row-IsRowOf w memory output u r (blanks e f) paused h = absurd (cc (paused e))
  update_row-IsRowOf w memory output u r (progresses q) _ h = record {
    same_status = h.same_status;
    same_paused = h.same_paused;
    same_progress = refl;
    same_ts_start = h.same_ts_start;
    same_memory = h.same_memory;
    same_output = h.same_output;
  }

  pub update-IsStepTable :
      (id : Uuid) (d : WorkflowStep) (u : StepUpdate) (db : D.Db) (steps : Dict WorkflowStep)
      → get id steps ≡ some d
      → IsStepTable db steps
      → IsStepTable (D.write (TableWrite.update_step id u) db) (put id (set_step u d) steps)
  unfolding set_step
  update-IsStepTable id d u db steps found h =
      let (row, q, e) = h.step id d found in
      record {
        step = λ k x p. elim (Bool-cases (str_eq id k)) [
          | inl eq ↦
              let same : k ≡ id = sym ((eq_iff id k).0 eq) in
              let new : set_step u d ≡ x = cc (get-put_eq id k (set_step u d) steps eq, p) in
              (
                set_step u row,
                ap (λ j. D.step_row j (D.write (TableWrite.update_step id u) db)) same
                    ∙ D.step-update id u db row q,
                ap (set_step u) e ∙ ap forget new,
              )
          | inr ne ↦
              let (row', q', e') = h.step k x (sym (get-put_ne id k (set_step u d) steps ne) ∙ p) in
              (row', D.step-update_ne k id u db ne ∙ q', e')
        ];
        fresh = λ k p. elim (Bool-cases (str_eq id k)) [
          | inl eq ↦ absurd (cc (get-put_eq id k (set_step u d) steps eq, p))
          | inr ne ↦
              D.step-update_ne k id u db ne
              ∙ h.fresh k (sym (get-put_ne id k (set_step u d) steps ne) ∙ p)
        ];
      }

  pub insert-IsStepTable :
      (d : WorkflowStep) (db : D.Db) (steps : Dict WorkflowStep)
      → get d.id steps ≡ none
      → IsStepTable db steps
      → IsStepTable (D.write (TableWrite.insert_step d) db) (put d.id d steps)
  insert-IsStepTable d db steps free h = record {
    step = λ k x p. elim (Bool-cases (str_eq d.id k)) [
      | inl eq ↦
          let same : k ≡ d.id = sym ((eq_iff d.id k).0 eq) in
          let new : d ≡ x = cc (get-put_eq d.id k d steps eq, p) in
          (
            d,
            ap (λ j. D.step_row j (D.write (TableWrite.insert_step d) db)) same
                ∙ D.step-insert d db (h.fresh d.id free),
            ap forget new,
          )
      | inr ne ↦
          let (row', q', e') = h.step k x (sym (get-put_ne d.id k d steps ne) ∙ p) in
          (row', D.step-insert_ne k d db ne ∙ q', e')
    ];
    fresh = λ k p. elim (Bool-cases (str_eq d.id k)) [
      | inl eq ↦ absurd (cc (get-put_eq d.id k d steps eq, p))
      | inr ne ↦ D.step-insert_ne k d db ne ∙ h.fresh k (sym (get-put_ne d.id k d steps ne) ∙ p)
    ];
  }

  pub memory-IsStepTable :
      (id : Uuid) (m : Memory) (db : D.Db) (steps : Dict WorkflowStep)
      → IsStepTable db steps
      → IsStepTable (D.write (TableWrite.update_step_memory id m) db) steps
  memory-IsStepTable id m db steps h = record {
    step = λ k x p.
        let (row, q, e) = h.step k x p in
        elim (Bool-cases (str_eq id k)) [
          | inl eq ↦
              let same : k ≡ id = sym ((eq_iff id k).0 eq) in
              (
                record row { memory = some m },
                ap (λ j. D.step_row j (D.write (TableWrite.update_step_memory id m) db)) same
                    ∙ D.step-memory id m db row (ap (λ j. D.step_row j db) (sym same) ∙ q),
                e,
              )
          | inr ne ↦ (row, D.step-memory_ne k id m db ne ∙ q, e)
        ];
    fresh = λ k p. D.step-memory_none k id m db (h.fresh k p);
  }
