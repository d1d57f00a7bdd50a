-- ===== src/Navis/Manager/Defs.antt =====
-- `WorkflowManager`: the two caches of runners, loading, registering, events and commits.
use fluvius_py.Common.{
  ℕ, ◌+◌, String, Bool, ◌&&◌, Option, none, some, List, [], ◌∷◌, ◌++◌, ◌==◌, str_eq, is_some,
  if◌then◌else◌,
}
use fluvius_py.Common.Dict.{Dict, get, put}
use fluvius_py.Navis.Data.{Uuid, Memory, WorkflowData}
use fluvius_py.Exec.{Failure, Result, ok, raised}
use fluvius_py.Navis.Runner.Script.{Reply, Engine}
use fluvius_py.Navis.Runner.State.{Runner}
use fluvius_py.Navis.Runner.Lifecycle.{Trigger, trigger, transaction, create_workflow, load_runner}
use fluvius_py.Navis.Router.Defs.{EventData, WorkflowTrigger, Table, option_eq, route_event}
use fluvius_py.Navis.Persist.Defs.{TableWrite, persist}

-- A `dict` whose keys are compared by `same`: a new key goes to the end, a known key keeps its place.
module _ {K A : Type 0} (same : K → K → Bool) where
  unfoldable pub find : K → List (K × A) → Option A
  find k [] = none
  find k ((j, a) ∷ d) = if same j k then some a else find k d

  unfoldable pub assign : K → A → List (K × A) → List (K × A)
  assign k a [] = (k, a) ∷ []
  assign k a ((j, b) ∷ d) =
      let rest = assign k a d in if same j k then (j, a) ∷ d else (j, b) ∷ rest

-- the keys of `_wfbyres` and `_wfbyids`
pub record ResourceKey : Type 0 where
  pub wfdef_key : String
  pub resource_name : Option String
  pub resource_id : Option Uuid

pub record IdKey : Type 0 where
  pub wfdef_key : String
  pub id : Uuid

abbrev pub same_resource : ResourceKey → ResourceKey → Bool
same_resource a b =
    str_eq a.wfdef_key b.wfdef_key
    && (option_eq a.resource_name b.resource_name && option_eq a.resource_id b.resource_id)

abbrev pub same_id : IdKey → IdKey → Bool
same_id a b = str_eq a.wfdef_key b.wfdef_key && str_eq a.id b.id

-- A runner as an object: its class and its fields. Both caches hold addresses of objects.
pub record RunnerObject : Type 0 where
  pub engine : Engine
  pub runner : Runner

pub record Manager : Type 0 where
  pub registry : Dict Engine
  pub by_res : List (ResourceKey × ℕ)
  pub by_ids : List (IdKey × ℕ)
  pub objects : List (ℕ × RunnerObject)
  pub next_address : ℕ

abbrev pub resource_key : String → String → Option Uuid → ResourceKey
resource_key wfdef_key name id = record {
  wfdef_key = wfdef_key;
  resource_name = some name;
  resource_id = id;
}

abbrev pub id_key : String → Uuid → IdKey
id_key wfdef_key id = record { wfdef_key = wfdef_key; id = id }

-- a new object, stored under the two keys
abbrev pub remember : ResourceKey → IdKey → RunnerObject → Manager → Manager
remember r i o m = record m {
  by_res = assign same_resource r m.next_address m.by_res;
  by_ids = assign same_id i m.next_address m.by_ids;
  objects = assign ◌==◌ m.next_address o m.objects;
  next_address = m.next_address + 1;
}

abbrev pub Loaded : Type 0
Loaded = Result ℕ × Manager

-- what a call of the class gives: a new runner, or a raise, with no object stored
abbrev pub remember_result :
    {A : Type 0} → ResourceKey → IdKey → Engine → Result A × Runner → Manager → Loaded
remember_result r i E (ok a, t) m =
    (ok m.next_address, remember r i (record { engine = E; runner = t }) m)
remember_result r i E (raised f, t) m = (raised f, m)

-- `self.__registry__[wfdef_key]`, and then `f`
abbrev pub with_engine : String → (Engine → Manager → Loaded) → Manager → Loaded
with_engine key f m = elim (get key m.registry) [
  | none ↦ (raised (Failure.key_error key), m)
  | some E ↦ f E m
]

unfoldable pub create :
    ℕ → Uuid → String → String → Uuid → Memory → Option String → Manager → Loaded
create depth id wfdef_key resource_name resource_id params title = with_engine wfdef_key λ E.
    remember_result (resource_key wfdef_key resource_name (some resource_id)) (id_key wfdef_key id)
      E (create_workflow E depth id title resource_id resource_name params)

-- The data manager: a search that may find nothing, and a fetch that may raise.
module _ (find_one : ResourceKey → Option WorkflowData) (fetch : IdKey → Result WorkflowData) where
  abbrev pub load_found : ResourceKey → Engine → Option WorkflowData → Manager → Loaded
  load_found key E none m = (raised (Failure.not_found key.wfdef_key), m)
  load_found key E (some w) m =
      remember_result key (id_key key.wfdef_key w.id) E (load_runner E w) m

  abbrev pub load_cached : ResourceKey → Option ℕ → Manager → Loaded
  load_cached key (some a) m = (ok a, m)
  load_cached key none m = with_engine key.wfdef_key (λ E. load_found key E (find_one key)) m

  unfoldable pub load_workflow : ResourceKey → Manager → Loaded
  load_workflow key m = load_cached key (find same_resource key m.by_res) m

  abbrev pub load_fetched : IdKey → Engine → Result WorkflowData → Manager → Loaded
  load_fetched key E (raised f) m = (raised f, m)
  load_fetched key E (ok w) m =
      remember_result
        (record {
          wfdef_key = key.wfdef_key;
          resource_name = w.resource_name;
          resource_id = some w.resource_id;
        })
        key E (load_runner E w) m

  abbrev pub load_cached_id : IdKey → Option ℕ → Manager → Loaded
  load_cached_id key (some a) m = (ok a, m)
  load_cached_id key none m = with_engine key.wfdef_key (λ E. load_fetched key E (fetch key)) m

  unfoldable pub load_workflow_by_id : IdKey → Manager → Loaded
  load_workflow_by_id key m = load_cached_id key (find same_id key m.by_ids) m

  -- `wf.transaction()` around `wf.trigger(trigger)`
  abbrev pub runner_trigger : WorkflowTrigger → Trigger
  runner_trigger t = record {
    selector = t.selector;
    resource_id = t.resource_id;
    resource_name = t.resource_name;
    wfdef_key = t.wfdef_key;
    step_key = t.step_key;
    handler = t.handler_func t.event_data;
  }

  unfoldable pub handle : ℕ → Uuid → WorkflowTrigger → RunnerObject → Result Reply × RunnerObject
  handle depth tx t o =
      let (result, runner) =
        transaction o.engine tx (trigger o.engine depth (runner_trigger t)) o.runner in
      (result, record o { runner = runner })

  -- The object at an address handles the trigger. An address always has an object.
  abbrev pub handle_at : ℕ → Uuid → WorkflowTrigger → ℕ → Manager → Result Reply × Manager
  handle_at depth tx t a m = elim (find ◌==◌ a m.objects) [
    | none ↦ (raised (Failure.key_error ""), m)
    | some o ↦
        let (result, o') = handle depth tx t o in
        (result, record m { objects = assign ◌==◌ a o' m.objects })
  ]

  -- The loop of `process_event`: the addresses it yields, what it raises, and the manager.
  unfoldable pub process_triggers :
      ℕ
      → (ℕ → Uuid)
      → List WorkflowTrigger
      → Option Failure
      → Manager
      → List ℕ × Option Failure × Manager
  process_triggers depth tx [] failure m = ([], failure, m)
  process_triggers depth tx (t ∷ triggers) failure m =
      let (loaded, m1) = load_workflow (resource_key t.wfdef_key t.resource_name t.resource_id) m in
      elim loaded [
        | raised f ↦ ([], some f, m1)
        | ok a ↦
            let (handled, m2) = handle_at depth (tx 0) t a m1 in
            let (yielded, later, m3) =
              process_triggers depth (λ n. tx (n + 1)) triggers failure m2 in
            elim handled [ raised f ↦ ([], some f, m2) | ok _ ↦ (a ∷ yielded, later, m3) ]
      ]

  unfoldable pub process_event :
      ℕ
      → (ℕ → Uuid)
      → (ℕ → Uuid)
      → String
      → EventData
      → Table
      → Manager
      → List ℕ × Option Failure × Manager
  process_event depth uuid_genr tx name data_ table m =
      let r = route_event uuid_genr name data_ none table in
      process_triggers depth tx r.triggers r.failure m

-- `commit`: each runner of `_wfbyres` in turn is persisted
unfoldable pub persist_object : Option RunnerObject → List TableWrite × Option RunnerObject
persist_object none = ([], none)
persist_object (some o) =
    let (writes, runner) = persist o.runner in (writes, some (record o { runner = runner }))

abbrev pub store_object :
    ℕ → Option RunnerObject → List (ℕ × RunnerObject) → List (ℕ × RunnerObject)
store_object a none objects = objects
store_object a (some o) objects = assign ◌==◌ a o objects

unfoldable pub commit_all :
    List (ResourceKey × ℕ) → List (ℕ × RunnerObject) → List TableWrite × List (ℕ × RunnerObject)
commit_all [] objects = ([], objects)
commit_all ((key, a) ∷ cached) objects =
    let (writes, o) = persist_object (find ◌==◌ a objects) in
    let (later, kept) = commit_all cached (store_object a o objects) in (writes ++ later, kept)

unfoldable pub commit_manager : Manager → List TableWrite × Manager
commit_manager m =
    let (writes, objects) = commit_all m.by_res m.objects in
    (writes, record m { objects = objects })

-- `register`, with the class of runners that is made of the workflow
unfoldable pub register : String → Engine → Manager → Result Unit × Manager
register key E m =
    if is_some (get key m.registry)
    then (raised (Failure.bad_request "P00.501"), m)
    else (ok tt, record m { registry = put key E m.registry })
