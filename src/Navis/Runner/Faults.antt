-- ===== src/Navis/Runner/Faults.antt =====
-- Actions that cannot succeed, and what a raise leaves behind.
use fluvius_py.Common.{
  ℕ, zero, suc, ◌≡◌, refl, sym, ap, subst, String, true, Option, none, some, List, [], ◌∷◌, arith,
}
use fluvius_py.Navis.Status.{WorkflowStatus}
use fluvius_py.Navis.Data.{StateUpdate}
use fluvius_py.Exec.{Failure, Result, ok, raised, pure, ◌>>=◌, ◌>>◌}
use fluvius_py.Navis.Runner.Script.{Reply, Call, Engine}
use fluvius_py.Navis.Runner.State.{ActionContext, Runner, Run}
use fluvius_py.Navis.Runner.Primitives.{set_state, status_locked}
use fluvius_py.Navis.Runner.Hooks.{
  validate_transaction, push_context, status_allowed, workflow_action,
}
use fluvius_py.Navis.Runner.Actions.{
  write_status, resume_workflow, perform, invoke, status_update, no_update,
}
use fluvius_py.Navis.Runner.StatusPaths.{RemembersPause}
use fluvius_py.Navis.Runner.Traces.Actions.{validate_ok}

abbrev pub Raises : {A : Type 0} → Result A × Runner → Type 0
Raises r = (e : Failure) × (r.0 ≡ raised e)

-- `m; f` raises if `f` does wherever `m` returns.
module _ {A B : Type 0} (f : A → Run B) where
  Raises-resume :
      (r : Result A × Runner)
      → ((a : A) (t : Runner) → r ≡ (ok a, t) → Raises (f a t))
      → Raises (((λ (_ : Runner). r) >>= f) r.1)
  unfolding ◌>>=◌
  Raises-resume (ok a, t) h = h a t refl
  Raises-resume (raised x, t) h = (x, refl)

  Raises-bind :
      (m : Run A) (s : Runner)
      → ((a : A) (t : Runner) → m s ≡ (ok a, t) → Raises (f a t))
      → Raises ((m >>= f) s)
  unfolding ◌>>=◌
  Raises-bind m s h = Raises-resume (m s) h

  Raises-early : (r : Result A × Runner) → Raises r → Raises (((λ (_ : Runner). r) >>= f) r.1)
  unfolding ◌>>=◌
  Raises-early (ok a, t) (e, q) = absurd (cc q)
  Raises-early (raised x, t) h = (x, refl)

  -- What raises first raises in the end.
  pub Raises-first : (m : Run A) (s : Runner) → Raises (m s) → Raises ((m >>= f) s)
  unfolding ◌>>=◌
  Raises-first m s h = Raises-early (m s) h

-- An action raises if its body does wherever the test of the status has passed.
pub workflow_action-Raises :
    (E : Engine) (run : Call → Run Reply) (name : String) (allowed : List WorkflowStatus)
    (hook : String) (body : Run Reply) (s : Runner)
    → ((t : Runner)
        → t.workflow ≡ s.workflow
        → status_allowed allowed t.workflow.status ≡ true
        → Raises (body t))
    → Raises (workflow_action E run name allowed hook body s)
unfolding workflow_action push_context ◌>>=◌
workflow_action-Raises E run name allowed hook body s h =
    Raises-bind _ (validate_transaction allowed) s λ a t e.
      let (same, passed) = validate_ok allowed s e in
      let top : ActionContext = record { action_name = name; step_id = none } in
      Raises-first _ body (record t { action_context = top ∷ t.action_context })
        (h (record t { action_context = top ∷ t.action_context })
          (ap (λ (v : Runner). v.workflow) (sym same))
          (subst (λ (v : Runner). status_allowed allowed v.workflow.status ≡ true) same passed))

-- `_set_state` with a status raises at every status but ACTIVE and NEW.
set_state-Raises :
    (u : StateUpdate) (s : Runner)
    → status_locked u s.workflow.status ≡ true
    → Raises (set_state u s)
unfolding set_state ◌>>=◌
set_state-Raises u s locked = rw locked (Failure.execution_error "P00.006", refl)

write-Raises :
    {A : Type 0} (u : StateUpdate) (r : A) (s : Runner)
    → status_locked u s.workflow.status ≡ true
    → Raises ((set_state u >> pure r) s)
write-Raises u r s locked = Raises-first (λ _. pure r) (set_state u) s (set_state-Raises u s locked)

locked_abort :
    (o : Option WorkflowStatus)
    → status_allowed (WorkflowStatus.degraded ∷ []) o ≡ true
    → status_locked (status_update WorkflowStatus.failed) o ≡ true
unfolding status_locked
locked_abort o h = ground arith

-- A workflow cannot be aborted: where the action is allowed, the write of its status is not.
pub abort-Raises : (E : Engine) (depth : ℕ) (s : Runner) → Raises (invoke E depth Call.abort s)
unfolding invoke perform write_status
abort-Raises E zero s = (Failure.recursion_error, refl)
abort-Raises E (suc depth) s =
    workflow_action-Raises E (invoke E depth) _ _ _ _ s
      λ t e allowed. write-Raises _ _ t (locked_abort t.workflow.status allowed)

locked_resume :
    (o r : Option WorkflowStatus)
    → (o ≡ some WorkflowStatus.paused → r ≡ some WorkflowStatus.active)
    → status_allowed (WorkflowStatus.paused ∷ []) o ≡ true
    → status_locked (record no_update { status = some r; paused = some none }) o ≡ true
unfolding status_locked
locked_resume (some WorkflowStatus.paused) r h p = rw (h refl)
locked_resume _ r h p = absurd (ground arith)

-- A workflow that remembers the status it was paused at cannot be resumed: the guard of `_set_state`
-- refuses a status at PAUSED.
pub resume-Raises :
    (E : Engine) (depth : ℕ) (s : Runner)
    → RemembersPause s.workflow
    → Raises (invoke E depth Call.resume s)
unfolding invoke perform resume_workflow ◌>>=◌
resume-Raises E zero s r = (Failure.recursion_error, refl)
resume-Raises E (suc depth) s r = workflow_action-Raises E (invoke E depth) _ _ _ _ s λ t e allowed.
    write-Raises (record no_update { status = some t.workflow.paused; paused = some none })
      Reply.runner t (locked_resume t.workflow.status t.workflow.paused (rw e r) allowed)
