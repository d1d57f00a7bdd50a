-- ===== src/Navis/Manager/Tests.antt =====
-- The theorems on the caches at a small manager.
use fluvius_py.Common.{ℕ, ◌≡◌, refl, Option, none, some, [], ◌∷◌}
use fluvius_py.Common.Dict.{get}
use fluvius_py.Navis.Data.{WorkflowData}
use fluvius_py.Exec.{Failure, Result, ok, raised}
use fluvius_py.Navis.Runner.Lifecycle.{load_runner, load_steps}
use fluvius_py.Navis.Manager.Defs.{
  ResourceKey, IdKey, Manager, resource_key, id_key, create, load_workflow, load_workflow_by_id,
}
use fluvius_py.Navis.Manager.Caches.{create-load, load_workflow-load_workflow}
use fluvius_py.Navis.Examples.{example_engine, active_data}

abbrev empty_manager : Manager
empty_manager = record {
  registry = ("loan", example_engine) ∷ [];
  by_res = [];
  by_ids = [];
  objects = [];
  next_address = 0;
}

abbrev stored : ResourceKey → Option WorkflowData
stored key = some active_data

abbrev nothing_stored : ResourceKey → Option WorkflowData
nothing_stored key = none

abbrev no_fetch : IdKey → Result WorkflowData
no_fetch key = raised (Failure.not_found "id")

load_workflow-load_workflow_example :
    load_workflow nothing_stored no_fetch
      (resource_key "loan" "loan" (some "resource-1"))
      (load_workflow stored no_fetch
        (resource_key "loan" "loan" (some "resource-1"))
        empty_manager).1
    ≡ (
      ok 0,
      (load_workflow stored no_fetch
          (resource_key "loan" "loan" (some "resource-1"))
          empty_manager).1,
    )
unfolding load_workflow get load_runner load_steps fluvius_py.Navis.Manager.Defs.find
load_workflow-load_workflow_example =
    load_workflow-load_workflow stored nothing_stored no_fetch
      (resource_key "loan" "loan" (some "resource-1")) empty_manager 0
      (load_workflow stored no_fetch (resource_key "loan" "loan" (some "resource-1"))
        empty_manager).1
      refl

abbrev created : Result ℕ × Manager
created = create 3 "loan-1" "loan" "loan" "resource-1" [] none empty_manager

create-load_example :
    (load_workflow nothing_stored no_fetch
        (resource_key "loan" "loan" (some "resource-1"))
        created.1
      ≡ (ok 0, created.1))
    × (load_workflow_by_id nothing_stored no_fetch (id_key "loan" "loan-1") created.1
        ≡ (ok 0, created.1))
unfolding create get fluvius_py.Navis.Runner.Lifecycle.create_workflow
    fluvius_py.Navis.Runner.Lifecycle.transaction fluvius_py.Navis.Runner.Lifecycle.initialize
    fluvius_py.Navis.Runner.Hooks.workflow_action fluvius_py.Navis.Runner.Hooks.validate_transaction
    fluvius_py.Navis.Runner.Hooks.push_context fluvius_py.Navis.Runner.Lifecycle.initialize_body
    fluvius_py.Navis.Runner.Primitives.mutate fluvius_py.Navis.Runner.Primitives.mutate_at
    fluvius_py.Navis.Runner.Primitives.mutate_in fluvius_py.Navis.Runner.Lifecycle.set_given_params
    fluvius_py.Navis.Runner.Lifecycle.add_stages fluvius_py.Navis.Runner.Hooks.run_hook
    fluvius_py.Navis.Runner.Hooks.named_hook fluvius_py.Navis.Runner.Hooks.log_activity
    fluvius_py.Navis.Runner.Hooks.pop_context fluvius_py.Navis.Runner.Script.base_hook
    fluvius_py.Exec.◌>>=◌
create-load_example =
    create-load nothing_stored no_fetch 3 "loan-1" "loan" "loan" "resource-1" [] none empty_manager
      0 created.1 refl
