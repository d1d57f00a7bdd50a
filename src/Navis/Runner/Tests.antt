-- ===== src/Navis/Runner/Tests.antt =====
-- The theorems on runners at the example workflow.
use fluvius_py.Common.{
  ◌∷◌, ◌≡◌, refl, subst, inl, inr, true, some, none, [], str_eq, is_some, any, Bool-cases,
}
use fluvius_py.Common.Dict.{get}
use fluvius_py.Exec.{Failure, ok, raised}
use fluvius_py.Navis.Data.{Uuid}
use fluvius_py.Navis.Runner.Script.{Call, Reply}
use fluvius_py.Navis.Runner.State.{Run}
use fluvius_py.Navis.Runner.Actions.{invoke}
use fluvius_py.Navis.Runner.Lifecycle.{transaction}
use fluvius_py.Navis.Status.{WorkflowStatus}
use fluvius_py.Navis.Runner.Moves.{Reach}
use fluvius_py.Navis.Runner.Traces.Bodies.{invoke-Reach}
use fluvius_py.Navis.Runner.Progress.{compute_status}
use fluvius_py.Navis.Runner.Traces.Reconcile.{compute_status-eq-none}
use fluvius_py.Navis.Runner.Registry.{IsRegistered, invoke-IsRegistered}
use fluvius_py.Navis.Runner.StepStates.{HasEngineStates, AllSound, invoke-AllSound}
use fluvius_py.Navis.Runner.Journal.{Journaled, invoke-Journaled}
use fluvius_py.Navis.Runner.StatusPaths.{MayBecome, RemembersPause, invoke-MayBecome}
use fluvius_py.Navis.Runner.Faults.{Raises, abort-Raises, resume-Raises}
use fluvius_py.Navis.Runner.Transactions.{transaction_outcome}
use fluvius_py.Navis.Examples.{
  example_step, review_class, example_engine, active_data, idle_runner, active_runner,
  paused_runner, add_review,
}

example-IsRegistered : IsRegistered [] []
unfolding get
example-IsRegistered = record {
  keyed = λ id d p. absurd (cc p);
  listed = λ id d p. absurd (cc p);
  routed = λ selector id p. absurd (cc p);
}

example-HasEngineStates : HasEngineStates example_engine
unfolding get
example-HasEngineStates key c p = elim (Bool-cases (str_eq "review" key)) [
  | inl eq ↦
      let same : some review_class ≡ some c = rw eq at p in
      let known : review_class ≡ c = cc same in
      subst
        (λ x.
          (any (str_eq "_CREATED") x.states ≡ true) × (any (str_eq "_FINISHED") x.states ≡ true))
        known (refl, refl)
  | inr ne ↦ absurd (cc (rw ne at p))
]

compute_status-eq-none_example : compute_status (example_step ∷ []) ≡ none
compute_status-eq-none_example = compute_status-eq-none (example_step ∷ [])

invoke-Reach_example :
    Reach example_engine active_runner (invoke example_engine 3 add_review active_runner).1
    × (is_some (invoke example_engine 3 add_review active_runner).1.transaction_id ≡ true)
invoke-Reach_example = invoke-Reach example_engine 3 add_review active_runner refl

invoke-IsRegistered_example :
    IsRegistered
      (invoke example_engine 3 add_review active_runner).1.steps
      (invoke example_engine 3 add_review active_runner).1.stmap
invoke-IsRegistered_example =
    invoke-IsRegistered example_engine 3 add_review active_runner refl example-IsRegistered

invoke-AllSound_example :
    AllSound example_engine 0 (invoke example_engine 3 add_review active_runner).1.steps
invoke-AllSound_example =
    invoke-AllSound example_engine 3 add_review active_runner example-HasEngineStates refl tt

invoke-Journaled_example : Journaled 0 (invoke example_engine 3 add_review active_runner).1
invoke-Journaled_example = invoke-Journaled example_engine 3 add_review active_runner 0 refl refl

active-RemembersPause : RemembersPause active_data
active-RemembersPause p = absurd (cc p)

invoke-MayBecome_example :
    MayBecome
      (some WorkflowStatus.active)
      (invoke example_engine 3 Call.pause active_runner).1.workflow.status
    × RemembersPause (invoke example_engine 3 Call.pause active_runner).1.workflow
invoke-MayBecome_example =
    invoke-MayBecome example_engine 3 Call.pause active_runner refl active-RemembersPause

transaction_outcome_example :
    let after =
      transaction example_engine "tx-1" (invoke example_engine 3 add_review) idle_runner in
    ((a : Reply) → after.0 ≡ ok a → after.1.transaction_id ≡ none)
    × ((e : Failure)
        → after.0 ≡ raised e
        → (later : Uuid) (body : Run Reply)
        → transaction example_engine later body after.1
          ≡ (raised (Failure.execution_error "P00.009"), after.1))
transaction_outcome_example =
    transaction_outcome example_engine "tx-1" 3 add_review idle_runner refl

abort-Raises_example : Raises (invoke example_engine 3 Call.abort active_runner)
abort-Raises_example = abort-Raises example_engine 3 active_runner

resume-Raises_example : Raises (invoke example_engine 3 Call.resume paused_runner)
resume-Raises_example = resume-Raises example_engine 3 paused_runner (λ p. refl)
