-- ===== src/Navis/Runner/Traces/Actions.antt =====
-- The decorators and the actions are sequences of moves.
use fluvius_py.Common.{
  ℕ, suc, ◌≤◌, ◌≡◌, String, true, not, none, some, List, [], ◌∷◌, arith, length, is_some, subst,
}
use native.Mathlib.Nat.{le_refl}
use fluvius_py.Navis.Status.{WorkflowStatus}
use fluvius_py.Navis.Data.{Uuid}
use fluvius_py.Exec.{Failure, ok, raised, pure, ◌>>=◌, ◌>>◌}
use fluvius_py.Navis.Runner.Script.{HookContext, Reply, Call, Engine}
use fluvius_py.Navis.Runner.State.{ActionContext, Runner, Run}
use fluvius_py.Navis.Runner.Hooks.{
  log_at, log_activity, push_context, pop_stack, pop_context, validate_transaction, status_allowed,
  named_hook, run_hook, starts_empty, workflow_action, step_action,
}
use fluvius_py.Navis.Runner.Progress.{reconcile}
use fluvius_py.Navis.Runner.Moves.{logs, enters, leaves, Reach-one}
use fluvius_py.Navis.Runner.Traces.Rules.{
  Good, Good-le, Ends, Ends-at, Ends-Move, Ends-after, Ends-raise_if, Ends-raise_last, Ends-bind,
}
use fluvius_py.Navis.Runner.Traces.Hooks.{Traced, run_hook-Ends}
use fluvius_py.Navis.Runner.Traces.Reconcile.{reconcile-Ends}

pub validate_ok :
    (allowed : List WorkflowStatus) (s : Runner) {t : Runner} {a : Unit {0}}
    → validate_transaction allowed s ≡ (ok a, t)
    → (s ≡ t) × (status_allowed allowed s.workflow.status ≡ true)
unfolding validate_transaction ◌>>=◌
validate_ok allowed s h = ground arith

module _ (E : Engine) where
  validate-Ends :
      (allowed : List WorkflowStatus) {d : ℕ} {s : Runner}
      → Good d s
      → Ends E d s (validate_transaction allowed s)
  unfolding validate_transaction ◌>>=◌
  validate-Ends allowed {s = s} g =
      Ends-raise_if (not (is_some s.transaction_id)) (Failure.execution_error "P00.001") _ g λ e.
        Ends-raise_last (not (status_allowed allowed s.workflow.status))
          (Failure.execution_error "P00.002") g

  log_at-Ends :
      (name : String) (stack : List ActionContext) {d : ℕ} {s : Runner}
      → Good d s
      → Ends E d s (log_at name stack s)
  log_at-Ends name [] g = Ends-at (raised Failure.index_error) g
  log_at-Ends name (a ∷ stack) g =
      Ends-Move (ok tt) (logs name a.step_id)
        (record { in_transaction = g.in_transaction; deep = g.deep })

  log_activity-Ends :
      (name : String) {d : ℕ} {s : Runner} → Good d s → Ends E d s (log_activity name s)
  unfolding log_activity
  log_activity-Ends name {s = s} g = log_at-Ends name s.action_context g

  pop-deep :
      (d : ℕ) (stack : List ActionContext) → suc d ≤ length stack → d ≤ length (pop_stack stack)
  pop-deep d [] h = absurd (omega arith)
  pop-deep d (a ∷ stack) h = omega arith

  leave-Ends :
      {A : Type 0} (a : A) {d : ℕ} {s : Runner}
      → Good (suc d) s
      → Ends E d s ((pop_context >> pure a) s)
  unfolding pop_context ◌>>=◌
  leave-Ends a {d} {s} g =
      Ends-Move (ok a) leaves
        (record { in_transaction = g.in_transaction; deep = pop-deep d s.action_context g.deep })

  entered :
      (a : ActionContext) {d : ℕ} {s : Runner}
      → Good d s
      → Good (suc d) (record s { action_context = a ∷ s.action_context })
  entered a g = record { in_transaction = g.in_transaction; deep = omega (arith, g.deep) }

  pub le_suc : {d : ℕ} → d ≤ suc d
  le_suc = omega arith

-- what a body may rely on: the action stands on the stack, and its status test has passed
abbrev pub Body : Engine → List WorkflowStatus → Run Reply → Type 0
Body E allowed body =
    (d : ℕ) (s : Runner)
    → Good (suc d) s
    → status_allowed allowed s.workflow.status ≡ true
    → Ends E (suc d) s (body s)

module _ (E : Engine) (invoke : Call → Run Reply) (traced : Traced E invoke) where
  pub workflow_action-Ends :
      (name : String) (allowed : List WorkflowStatus) (hook : String) (body : Run Reply)
      → Body E allowed body
      → {d : ℕ} {s : Runner} → Good d s
      → Ends E d s (workflow_action E invoke name allowed hook body s)
  unfolding workflow_action push_context ◌>>=◌
  workflow_action-Ends name allowed hook body b {d} {s} g =
      Ends-bind (validate_transaction allowed) _ (le_refl _) (validate-Ends E allowed g)
        λ a t e r h.
          let (same, passed) = validate_ok allowed s e in
          let top : ActionContext = record { action_name = name; step_id = none } in
          let good = entered E top h in
          Ends-after (Reach-one (enters top)) (
            Ends-bind body _ (le_suc E)
              (b d _ good (
                subst (λ (u : Runner). status_allowed allowed u.workflow.status ≡ true) same
                  passed))
              λ result u e' r' k.
                Ends-bind (run_hook E invoke (named_hook E hook) u.state_proxy) _ (le_suc E)
                  (run_hook-Ends E invoke traced (named_hook E hook) u.state_proxy k)
                  λ a' v e'' r'' k'.
                    Ends-raise_if (starts_empty name v) (Failure.configuration_error "P00.015") _
                      (Good-le (le_suc E) k')
                      λ steps.
                        Ends-bind (log_activity name) _ (le_suc E) (log_activity-Ends E name k')
                          λ a'' w e''' r''' k''. leave-Ends E result k'')

  pub step_action-Ends :
      (name : String) (allowed : List WorkflowStatus) (hook : String) (id : Uuid) (body : Run Reply)
      → Body E allowed body
      → {d : ℕ} {s : Runner} → Good d s
      → Ends E d s (step_action E invoke name allowed hook id body s)
  unfolding step_action push_context ◌>>=◌
  step_action-Ends name allowed hook id body b {d} {s} g =
      Ends-bind (validate_transaction allowed) _ (le_refl _) (validate-Ends E allowed g)
        λ a t e r h.
          let (same, passed) = validate_ok allowed s e in
          let top : ActionContext = record { action_name = name; step_id = some id } in
          let passed' =
            subst (λ (u : Runner). status_allowed allowed u.workflow.status ≡ true) same passed in
          let on_step = HookContext.step_id id in
          Ends-after (Reach-one (enters top)) (
            Ends-bind body _ (le_suc E) (b d _ (entered E top h) passed') λ result u e' r' k.
              Ends-bind (run_hook E invoke (named_hook E hook) on_step) _ (le_suc E)
                (run_hook-Ends E invoke traced (named_hook E hook) on_step k)
                λ a' v e'' r'' k'.
                  Ends-bind reconcile _ (le_suc E) (reconcile-Ends E k') λ a3 w e3 r3 k3.
                    Ends-bind (log_activity name) _ (le_suc E) (log_activity-Ends E name k3)
                      λ a4 x e4 r4 k4. leave-Ends E result k4)
