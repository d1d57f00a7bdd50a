-- ===== src/Navis/Runner/Traces/Reconcile.antt =====
-- What `reconcile` finds and writes.
use fluvius_py.Common.{ℕ, suc, ◌≡◌, refl, false, Option, none, some, List, [], ◌∷◌, arith}
use fluvius_py.Common.Dict.{values}
use fluvius_py.Navis.Status.{StepStatus}
use fluvius_py.Navis.Data.{WorkflowStep, Ratio}
use fluvius_py.Exec.{ok, ◌>>=◌}
use fluvius_py.Navis.Runner.Script.{Engine}
use fluvius_py.Navis.Runner.State.{Runner}
use fluvius_py.Navis.Runner.Progress.{
  Object, object_in, step_statuses, all_in, compute_status, apply_updates, reconcile_steps,
  reconcile,
}
use fluvius_py.Navis.Runner.Actions.{no_update}
use fluvius_py.Navis.Runner.Moves.{progresses}
use fluvius_py.Navis.Runner.Traces.Rules.{Good, Ends, Ends-at}
use fluvius_py.Navis.Runner.Traces.Writes.{set_state-Ends}

no_member :
    (s : StepStatus) (steps : List WorkflowStep)
    → object_in (Object.status_member s) (step_statuses steps) ≡ false
unfolding object_in step_statuses
no_member s [] = refl
no_member s (d ∷ steps) = no_member s steps

-- The steps are compared with statuses, so no status is ever found.
pub compute_status-eq-none : (steps : List WorkflowStep) → compute_status steps ≡ none
unfolding compute_status all_in object_in step_statuses
compute_status-eq-none [] = refl
compute_status-eq-none (d ∷ steps) = ground (arith, no_member StepStatus.error (d ∷ steps))

module _ (E : Engine) {d : ℕ} {s : Runner} (g : Good (suc d) s) where
  write_progress :
      (o : Option Ratio) → Ends E (suc d) s (apply_updates (record no_update { progress = o }) s)
  unfolding apply_updates
  write_progress none = Ends-at (ok tt) g
  write_progress (some p) = set_state-Ends E g _ (λ _. progresses p)

  steps-Ends : (steps : List WorkflowStep) → Ends E (suc d) s (reconcile_steps steps s)
  unfolding reconcile_steps ◌>>=◌
  steps-Ends [] = Ends-at (ok tt) g
  steps-Ends (x ∷ steps) = rw (compute_status-eq-none (x ∷ steps)) (write_progress _)

  pub reconcile-Ends : Ends E (suc d) s (reconcile s)
  unfolding reconcile
  reconcile-Ends = steps-Ends (values s.steps)
