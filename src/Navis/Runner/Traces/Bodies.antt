-- ===== src/Navis/Runner/Traces/Bodies.antt =====
-- The bodies of the actions, and the theorem on every action.
use fluvius_py.Common.{
  ℕ, zero, suc, ◌+◌, ◌≡◌, refl, String, true, false, not, ◌&&◌, Option, none, some, List, [], ◌∷◌,
  ◌++◌, arith, is_some, subst, sym,
}
use native.Mathlib.Nat.{le_refl}
use fluvius_py.Navis.Status.{
  StepStatus, WorkflowStatus, step_status_eq, active_workflows, editable_workflows,
}
use fluvius_py.Navis.Data.{Uuid, Memory, WorkflowData, StateUpdate, Mutation, MutateCall}
use fluvius_py.Exec.{Failure, ok, raised, pure, ◌>>=◌, ◌>>◌}
use fluvius_py.Navis.Runner.Script.{Reply, NewStep, NewTask, Call, Engine}
use fluvius_py.Navis.Runner.State.{ActionContext, Runner, Run}
use fluvius_py.Navis.Runner.Primitives.{
  find_step, add_step, set_step_memory, set_state, mutate, mutate_at, mutate_in, get_memory,
  status_locked, update_step, random_uuid,
}
use fluvius_py.Navis.Runner.Hooks.{status_allowed, get_state_proxy, transit}
use fluvius_py.Navis.Runner.Actions.{
  no_update, status_update, write_status, pause_workflow, resume_workflow, task_record,
  has_resource, dispatch_task, cancel_task, add_new_step, recall, recover, memorize, write_output,
  step_memorize, transit_to, perform, invoke,
}
use fluvius_py.Navis.Runner.Moves.{
  StateWrite, recover_update, cancels_new, cancels_active, pauses, blanks, sends, defaults, ticks,
  task_added, Reach, Reach-one, Reach-trans,
}
use fluvius_py.Navis.Runner.Traces.Rules.{
  Good, Ends, Ends-at, Ends-Move, Ends-after, Ends-raise_if, Ends-bind, Ends-mutate,
}
use fluvius_py.Navis.Runner.Traces.Writes.{
  find_step_ok, find_step-Ends, set_state-Ends, set_memory-Ends, set_output-Ends,
  set_step_memory-Ends, recover_step-Ends,
}
use fluvius_py.Navis.Runner.Traces.NewStep.{add_step-Ends}
use fluvius_py.Navis.Runner.Traces.Hooks.{Traced, get_state_proxy-Ends, transit-Ends}
use fluvius_py.Navis.Runner.Traces.Actions.{Body, workflow_action-Ends, step_action-Ends}

abbrev pause_update : Option WorkflowStatus → StateUpdate
pause_update old = record no_update {
  status = some (some WorkflowStatus.paused);
  paused = some old;
}

abbrev resume_update : Option WorkflowStatus → StateUpdate
resume_update old = record no_update { status = some old; paused = some none }

-- Which statuses pass both the test of the action and the guard of `_set_state`.
module _ (w : WorkflowData) where
  may_cancel :
      (o : Option WorkflowStatus)
      → w.status ≡ o
      → status_allowed editable_workflows o ≡ true
      → status_locked (status_update WorkflowStatus.cancelled) o ≡ false
      → StateWrite w (status_update WorkflowStatus.cancelled)
  unfolding status_locked
  may_cancel (some WorkflowStatus.new) e p q = cancels_new e
  may_cancel (some WorkflowStatus.active) e p q = cancels_active e
  may_cancel _ e p q = absurd (ground arith)

  may_abort :
      (o : Option WorkflowStatus)
      → status_allowed (WorkflowStatus.degraded ∷ []) o ≡ true
      → status_locked (status_update WorkflowStatus.failed) o ≡ false
      → ⊥
  unfolding status_locked
  may_abort o p q = ground arith

  may_pause :
      (o : Option WorkflowStatus)
      → w.status ≡ o
      → status_allowed (WorkflowStatus.active ∷ []) o ≡ true
      → StateWrite w (pause_update w.status)
  may_pause (some WorkflowStatus.active) e p =
      subst (λ x. StateWrite w (pause_update x)) (sym e) (pauses e)
  may_pause _ e p = absurd (ground arith)

  may_resume :
      (o r : Option WorkflowStatus)
      → w.status ≡ o
      → w.paused ≡ r
      → status_allowed (WorkflowStatus.paused ∷ []) o ≡ true
      → status_locked (resume_update r) o ≡ false
      → StateWrite w (resume_update r)
  unfolding status_locked
  may_resume (some WorkflowStatus.paused) none e f p q = blanks e f
  may_resume _ _ e f p q = absurd (ground arith)

module _ (E : Engine) where
  -- a body that runs `m` and returns
  then_return :
      {A : Type 0} (m : Run A) (r : Reply) {d : ℕ} {s : Runner}
      → Ends E (suc d) s (m s)
      → Ends E (suc d) s ((m >>= λ _. pure r) s)
  then_return m r h = Ends-bind m _ (le_refl _) h λ a t e q g. Ends-at (ok r) g

  cancel-Body : Body E editable_workflows (write_status WorkflowStatus.cancelled)
  unfolding write_status
  cancel-Body d s g allowed =
      then_return _ _ (set_state-Ends E g _ (may_cancel s.workflow s.workflow.status refl allowed))

  abort-Body : Body E (WorkflowStatus.degraded ∷ []) (write_status WorkflowStatus.failed)
  unfolding write_status
  abort-Body d s g allowed =
      then_return _ _ (
        set_state-Ends E g _ (λ free. absurd (may_abort s.workflow s.workflow.status allowed free)))

  pause-Body : Body E (WorkflowStatus.active ∷ []) pause_workflow
  unfolding pause_workflow ◌>>=◌
  pause-Body d s g allowed =
      then_return (set_state (pause_update s.workflow.status)) Reply.runner
        (set_state-Ends E g _ (λ _. may_pause s.workflow s.workflow.status refl allowed))

  resume-Body : Body E (WorkflowStatus.paused ∷ []) resume_workflow
  unfolding resume_workflow ◌>>=◌
  resume-Body d s g allowed =
      then_return (set_state (resume_update s.workflow.paused)) Reply.runner (
        set_state-Ends E g _
          (may_resume s.workflow s.workflow.status s.workflow.paused refl refl allowed))

  sent_on :
      (t : NewTask) {d : ℕ} {s : Runner}
      → Good d s
      → Good d (record s { sent = s.sent ++ t ∷ []; reads = s.reads + 1 })
  sent_on t g = record { in_transaction = g.in_transaction; deep = g.deep }

  queue_task :
      (t : NewTask) (id : Uuid) {d : ℕ} {s : Runner}
      → Good (suc d) s
      → Ends E (suc d) s (
          (mutate (MutateCall.fields_of (Mutation.add_task (task_record t id s)))
              >> pure Reply.runner)
            s)
  queue_task t id {s = s} g =
      then_return _ _ (Ends-mutate s s _ g (task_added (task_record t id s)) refl refl)

  dispatch-Body : (t : NewTask) → Body E active_workflows (dispatch_task E t)
  unfolding dispatch_task random_uuid ◌>>=◌
  dispatch-Body t d s g allowed =
      Ends-raise_if (not (has_resource t s)) (Failure.bad_request "P00.402") _ g λ named.
        Ends-raise_if (not E.loop_running && E.send_fails t) (Failure.execution_error "P00.001") _ g
          λ reached.
            Ends-after (Reach-trans (Reach-one (sends t)) (Reach-one ticks))
              (queue_task t (E.uuid_genr s.reads) (sent_on t g))

  unknown_mutation :
      (tx : Option Uuid) (stack : List ActionContext) {d : ℕ} {s : Runner}
      → Good d s
      → Ends E d s (mutate_at (MutateCall.task_call "update-task") tx stack s)
  unfolding mutate_at mutate_in
  unknown_mutation none stack g = Ends-at (raised (Failure.execution_error "P00.010")) g
  unknown_mutation (some tx) [] g = Ends-at (raised (Failure.execution_error "P00.016")) g
  unknown_mutation (some tx) (a ∷ stack) g = Ends-at (raised (Failure.key_error "update-task")) g

  cancel_task-Body : (id : String) → Body E active_workflows (cancel_task id)
  unfolding cancel_task mutate
  cancel_task-Body id d s g allowed =
      then_return (mutate (MutateCall.task_call "update-task")) Reply.runner
        (unknown_mutation s.transaction_id s.action_context g)

  add_new_step-Body :
      (src : Option Uuid) (n : NewStep) → Body E active_workflows (add_new_step E src n)
  unfolding add_new_step
  add_new_step-Body src n d s g allowed =
      Ends-bind (add_step E src n.step_key n.selector n.title) _ (le_refl _)
        (add_step-Ends E g src n.step_key n.selector n.title)
        λ x t e r h.
          Ends-bind (set_step_memory x.id n.memory) _ (le_refl _)
            (set_step_memory-Ends E h x.id n.memory)
            λ a u e' r' h'.
              Ends-bind (get_state_proxy (some x.selector)) _ (le_refl _)
                (get_state_proxy-Ends E h' (some x.selector))
                λ c v e'' r'' h''. Ends-at (ok (Reply.proxy c)) h''

  recall-Ends : (o : Option Uuid) {d : ℕ} {s : Runner} → Good d s → Ends E d s (recall o s)
  unfolding recall get_memory ◌>>=◌
  recall-Ends none g = Ends-at _ g
  recall-Ends (some id) g =
      Ends-Move _ (defaults id) (record { in_transaction = g.in_transaction; deep = g.deep })

  memorize-Body : (kvs : Memory) → Body E active_workflows (memorize kvs)
  unfolding memorize
  memorize-Body kvs d s g allowed = then_return _ _ (set_memory-Ends E g kvs)

  output-Body : (kvs : Memory) → Body E editable_workflows (write_output kvs)
  unfolding write_output
  output-Body kvs d s g allowed = then_return _ _ (set_output-Ends E g kvs)

  step_memorize-Body : (id : Uuid) (kvs : Memory) → Body E active_workflows (step_memorize id kvs)
  unfolding step_memorize
  step_memorize-Body id kvs d s g allowed = then_return _ _ (set_step_memory-Ends E g id kvs)

  is_error :
      (a : StepStatus) → not (step_status_eq a StepStatus.error) ≡ false → a ≡ StepStatus.error
  is_error a h = ground arith

  -- A step can be recovered only from an error.
  recover-Body : (id : Uuid) → Body E active_workflows (recover E id)
  unfolding recover
  recover-Body id d s g allowed =
      Ends-bind (find_step id) _ (le_refl _) (find_step-Ends E g id) λ x t e r h.
        unfold ◌>>=◌ in
        Ends-raise_if (not (step_status_eq x.status StepStatus.error))
          (Failure.execution_error "P00.007") _ h
          λ broken.
            then_return (update_step E id recover_update) Reply.runner
              (recover_step-Ends E h id x (find_step_ok id s e).0 (is_error x.status broken))

module _ (E : Engine) (run : Call → Run Reply) (traced : Traced E run) where
  transit-Body :
      (id : Uuid) (to_state : String) → Body E active_workflows (transit_to E run id to_state)
  unfolding transit_to
  transit-Body id to_state d s g allowed =
      Ends-bind (find_step id) _ (le_refl _) (find_step-Ends E g id) λ x t e r h.
        then_return E (transit E run id x to_state) Reply.runner
          (transit-Ends E run traced id x to_state h (find_step_ok id s e).0)

  pub perform-Ends : Traced E (perform E run)
  unfolding perform
  perform-Ends Call.cancel d s g = workflow_action-Ends E run traced _ _ _ _ (cancel-Body E) g
  perform-Ends Call.abort d s g = workflow_action-Ends E run traced _ _ _ _ (abort-Body E) g
  perform-Ends Call.pause d s g = workflow_action-Ends E run traced _ _ _ _ (pause-Body E) g
  perform-Ends Call.resume d s g = workflow_action-Ends E run traced _ _ _ _ (resume-Body E) g
  perform-Ends (Call.add_task t) d s g =
      workflow_action-Ends E run traced _ _ _ _ (dispatch-Body E t) g
  perform-Ends (Call.cancel_task id) d s g =
      workflow_action-Ends E run traced _ _ _ _ (cancel_task-Body E id) g
  perform-Ends (Call.transit_step id to_state) d s g =
      workflow_action-Ends E run traced _ _ _ _ (transit-Body id to_state) g
  perform-Ends (Call.add_step n) d s g =
      workflow_action-Ends E run traced _ _ _ _ (add_new_step-Body E none n) g
  perform-Ends (Call.memorize kvs) d s g =
      workflow_action-Ends E run traced _ _ _ _ (memorize-Body E kvs) g
  perform-Ends (Call.output kvs) d s g =
      workflow_action-Ends E run traced _ _ _ _ (output-Body E kvs) g
  perform-Ends Call.recall d s g =
      workflow_action-Ends E run traced _ _ _ _ (λ e t h _. recall-Ends E none h) g
  perform-Ends (Call.step_add_step id n) d s g =
      step_action-Ends E run traced _ _ _ _ _ (add_new_step-Body E (some id) n) g
  perform-Ends (Call.step_transit id to_state) d s g =
      step_action-Ends E run traced _ _ _ _ _ (transit-Body id to_state) g
  perform-Ends (Call.recover_step id) d s g =
      step_action-Ends E run traced _ _ _ _ _ (recover-Body E id) g
  perform-Ends (Call.step_add_task id t) d s g =
      step_action-Ends E run traced _ _ _ _ _ (dispatch-Body E t) g
  perform-Ends (Call.step_memorize id kvs) d s g =
      step_action-Ends E run traced _ _ _ _ _ (step_memorize-Body E id kvs) g
  perform-Ends (Call.step_recall id) d s g =
      step_action-Ends E run traced _ _ _ _ _ (λ e t h _. recall-Ends E (some id) h) g

pub invoke-Ends : (E : Engine) (depth : ℕ) → Traced E (invoke E depth)
unfolding invoke
invoke-Ends E zero c d s g = Ends-at (raised Failure.recursion_error) g
invoke-Ends E (suc depth) c d s g = perform-Ends E (invoke E depth) (invoke-Ends E depth) c d s g

-- Whatever the hooks of a workflow do, an action that a proxy offers (a `Call`) and that runs in a
-- transaction, whether it returns or raises, takes the runner through a sequence of moves, and the
-- transaction stays open. `initialize`, `start`, `trigger` and the changes of participants are no
-- calls of a proxy.
pub invoke-Reach :
    (E : Engine) (depth : ℕ) (c : Call) (s : Runner)
    → is_some s.transaction_id ≡ true
    → Reach E s (invoke E depth c s).1 × (is_some (invoke E depth c s).1.transaction_id ≡ true)
invoke-Reach E depth c s open_tx =
    let h = invoke-Ends E depth c 0 s (record { in_transaction = open_tx; deep = omega arith }) in
    (h.reach, h.good.in_transaction)
