-- ===== src/Navis/Persist/Stored.antt =====
-- The tables after the mutations of any action have been written.
use fluvius_py.Common.{ℕ, ◌≡◌, refl, sym, ◌∙◌, subst, true, false, List, [], ◌∷◌, is_some}
use fluvius_py.Navis.Data.{Uuid, Mutation, WorkflowActivity, WorkflowMessage}
use fluvius_py.Navis.Runner.Script.{Call, Engine}
use fluvius_py.Navis.Runner.State.{ActionContext, Runner}
use fluvius_py.Navis.Runner.Primitives.{enqueue, envelope}
use fluvius_py.Navis.Runner.Actions.{invoke}
use fluvius_py.Navis.Runner.Lifecycle.{commit}
use fluvius_py.Navis.Runner.Moves.{
  Move, Change, state_written, step_written, step_recovered, step_added, memory_written,
  output_written, step_memory_written, task_added, changes, Reach, here, next,
}
use fluvius_py.Navis.Runner.StatusPaths.{RemembersPause, StateWrite-RemembersPause}
use fluvius_py.Navis.Runner.Traces.Bodies.{invoke-Reach}
use fluvius_py.Navis.Persist.Defs.{
  TableWrite, persist_mutation, persist_mutations, persist_messages, persist_activities, persist,
  on_state, on_step, Database, write_all,
}
use fluvius_py.Navis.Persist.Sync.{
  IsStored, write_one, write_all-append, write_queue-append, state_kept, steps_kept,
  update_row-IsRowOf, update-IsStepTable, insert-IsStepTable, memory-IsStepTable,
}

module _ (D : Database) where
  -- A write to a table that is not read back keeps both.
  kept :
      (w : TableWrite) (db : D.Db) (s : Runner)
      → on_state w ≡ false
      → on_step w ≡ false
      → IsStored D db s
      → IsStored D (D.write w db) s
  kept w db s p q (h, steps) = (state_kept D w db s p h, steps_kept D w db s.steps q steps)

  -- The table writes of one mutation keep up with the change it comes with.
  Change-IsStored :
      {E : Engine} {s t : Runner} {m : Mutation} (a : ActionContext) (tx : Uuid) (db : D.Db)
      → Change E s m t
      → RemembersPause s.workflow
      → IsStored D db s
      → IsStored D (write_one D (envelope m tx a t) db) t
  unfolding write_one write_all persist_mutation
  Change-IsStored {s} {t} a tx db (state_written u w) r ((row, p, h), steps) =
      kept _ _ t refl refl (
        (
          _,
          D.state-update s.id u db row p,
          update_row-IsRowOf D s.workflow s.memory s.output u row w r h,
        ),
        steps_kept D _ db s.steps refl steps,
      )
  Change-IsStored {s} {t} a tx db (step_written id c d u found class w) r (h, steps) =
      kept _ _ t refl refl
        (state_kept D _ db t refl h, update-IsStepTable D id d u db s.steps found steps)
  Change-IsStored {s} {t} a tx db (step_recovered id d found broken) r (h, steps) =
      kept _ _ t refl refl
        (state_kept D _ db t refl h, update-IsStepTable D id d _ db s.steps found steps)
  Change-IsStored {s} {t} a tx db (step_added c id selector src key title now class new free) r
        (h, steps) =
      kept _ _ t refl refl (state_kept D _ db t refl h, insert-IsStepTable D _ db s.steps new steps)
  Change-IsStored {s} {t} a tx db (memory_written kvs) r ((row, p, h), steps) =
      kept _ _ t refl refl (
        (
          _,
          D.state-memory s.id _ db row p,
          record {
            same_status = h.same_status;
            same_paused = h.same_paused;
            same_progress = h.same_progress;
            same_ts_start = h.same_ts_start;
            same_memory = refl;
            same_output = h.same_output;
          },
        ),
        steps_kept D _ db s.steps refl steps,
      )
  Change-IsStored {s} {t} a tx db (output_written kvs) r ((row, p, h), steps) =
      kept _ _ t refl refl (
        (
          _,
          D.state-output s.id _ db row p,
          record {
            same_status = h.same_status;
            same_paused = h.same_paused;
            same_progress = h.same_progress;
            same_ts_start = h.same_ts_start;
            same_memory = h.same_memory;
            same_output = refl;
          },
        ),
        steps_kept D _ db s.steps refl steps,
      )
  Change-IsStored {s} {t} a tx db (step_memory_written id kvs) r (h, steps) =
      kept _ _ t refl refl (state_kept D _ db t refl h, memory-IsStepTable D id _ db s.steps steps)
  Change-IsStored {s} {t} a tx db (task_added task) r h =
      kept _ _ t refl refl (kept _ db t refl refl h)

  Change-RemembersPause :
      {E : Engine} {s t : Runner} {m : Mutation}
      → Change E s m t
      → RemembersPause s.workflow
      → RemembersPause t.workflow
  Change-RemembersPause {s} (state_written u w) r = StateWrite-RemembersPause s.workflow u w r
  Change-RemembersPause _ r = r

  -- what stands in the tables once the queued mutations are written
  abbrev queued : D.Db → Runner → D.Db
  queued db s = write_all D (persist_mutations s.mut_queue) db

  abbrev Follows : D.Db → Runner → Type 0
  Follows db s = RemembersPause s.workflow × IsStored D (queued db s) s

  same_queue :
      {E : Engine} {s t : Runner} {m : Mutation} → Change E s m t → s.mut_queue ≡ t.mut_queue
  same_queue (state_written u w) = refl
  same_queue _ = refl

  Move-Follows : {E : Engine} {s t : Runner} (db : D.Db) → Move E s t → Follows db s → Follows db t
  Move-Follows {s} db (changes {t} m tx a e c) (r, h) = (
    Change-RemembersPause c r,
    subst (λ x. IsStored D x (enqueue m tx a t))
        (sym (write_queue-append D t.mut_queue (envelope m tx a t) db))
        (Change-IsStored a tx _ c r
          (subst (λ q. IsStored D (write_all D (persist_mutations q) db) s) (same_queue c) h)),
  )
  Move-Follows db _ h = h

  Reach-Follows :
      {E : Engine} {s t : Runner} (db : D.Db) → Reach E s t → Follows db s → Follows db t
  Reach-Follows db here h = h
  Reach-Follows db (next r m) h = Move-Follows db m (Reach-Follows db r h)

  messages_kept :
      (queue : List WorkflowMessage) (db : D.Db) (s : Runner)
      → IsStored D db s
      → IsStored D (write_all D (persist_messages queue) db) s
  unfolding persist_messages write_all
  messages_kept [] db s h = h
  messages_kept (m ∷ queue) db s h =
      messages_kept queue (D.write (TableWrite.insert_message m) db) s (kept _ db s refl refl h)

  activities_kept :
      (queue : List WorkflowActivity) (db : D.Db) (s : Runner)
      → IsStored D db s
      → IsStored D (write_all D (persist_activities queue) db) s
  unfolding persist_activities write_all
  activities_kept [] db s h = h
  activities_kept (x ∷ queue) db s h =
      activities_kept queue (D.write (TableWrite.insert_activity x) db) s (kept _ db s refl refl h)

  -- `persist` brings the tables up to the runner.
  persist_kept :
      (db : D.Db) (s : Runner)
      → IsStored D (queued db s) s
      → IsStored D (write_all D (persist s).0 db) (persist s).1
  unfolding persist commit
  persist_kept db s h =
      subst (λ x. IsStored D x (record s { mut_queue = []; msg_queue = []; act_queue = [] }))
        (sym (
          write_all-append D (persist_mutations s.mut_queue) _ db
          ∙ write_all-append D (persist_messages s.msg_queue) _ _))
        (activities_kept s.act_queue _ s (messages_kept s.msg_queue _ s h))

  -- If the tables agree with a runner whose queue of mutations is empty, then after an action that a
  -- proxy offers (a `Call`), with any hooks, and whether it returns or raises, `persist` writes what
  -- makes them agree with the runner that it leaves: the status, the paused status, the progress, the
  -- start, the memory and the output of the workflow, and each step but for its memory. The runner is
  -- in a transaction, and remembers the status that it is paused at, if it is.
  pub persist-IsStored :
      (E : Engine) (depth : ℕ) (c : Call) (s : Runner) (db : D.Db)
      → is_some s.transaction_id ≡ true
      → RemembersPause s.workflow
      → s.mut_queue ≡ []
      → IsStored D db s
      → let after = persist (invoke E depth c s).1 in IsStored D (write_all D after.0 db) after.1
  unfolding write_all persist_mutations
  persist-IsStored E depth c s db open_tx r empty h =
      let start : IsStored D (queued db s) s =
        subst (λ q. IsStored D (write_all D (persist_mutations q) db) s) (sym empty) h in
      persist_kept db _ (Reach-Follows db (invoke-Reach E depth c s open_tx).0 (r, start)).1
