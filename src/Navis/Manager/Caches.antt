-- ===== src/Navis/Manager/Caches.antt =====
-- What the two caches find again.
use fluvius_py.Common.{
  ℕ, ◌≡◌, refl, subst, inl, inr, String, Bool, true, ◌&&◌, Option, none, some, List, [], ◌∷◌,
  eq_refl, Bool-cases, arith,
}
use fluvius_py.Common.Dict.{get}
use fluvius_py.Navis.Data.{Uuid, Memory, WorkflowData}
use fluvius_py.Exec.{Failure, Result, ok, raised}
use fluvius_py.Navis.Runner.Script.{Engine}
use fluvius_py.Navis.Runner.State.{Runner}
use fluvius_py.Navis.Runner.Lifecycle.{create_workflow, load_runner}
use fluvius_py.Navis.Router.Defs.{option_eq}
use fluvius_py.Navis.Manager.Defs.{
  find, assign, ResourceKey, IdKey, same_resource, same_id, Manager, resource_key, id_key, Loaded,
  remember_result, with_engine, create, load_found, load_cached, load_workflow, load_workflow_by_id,
}

find-assign :
    {K A : Type 0} (same : K → K → Bool) (k : K) (a : A) (d : List (K × A))
    → same k k ≡ true
    → find same k (assign same k a d) ≡ some a
unfolding find assign
find-assign same k a [] h = rw h refl
find-assign same k a ((j, b) ∷ d) h = elim (Bool-cases (same j k)) [
  | inl e ↦ rw (e, e) refl
  | inr e ↦ rw (e, e) (find-assign same k a d h)
]

option_refl : (o : Option Uuid) → option_eq o o ≡ true
option_refl none = refl
option_refl (some u) = eq_refl u

both : {a b : Bool} → a ≡ true → b ≡ true → (a && b) ≡ true
both h k = ground arith

resource_refl : (k : ResourceKey) → same_resource k k ≡ true
resource_refl k =
    both (eq_refl k.wfdef_key) (both (option_refl k.resource_name) (option_refl k.resource_id))

id_refl : (k : IdKey) → same_id k k ≡ true
id_refl k = both (eq_refl k.wfdef_key) (eq_refl k.id)

-- the address under both keys
abbrev Cached : ResourceKey → IdKey → ℕ → Manager → Type 0
Cached r i a m = (find same_resource r m.by_res ≡ some a) × (find same_id i m.by_ids ≡ some a)

abbrev IsCached : ResourceKey → IdKey → Loaded → Type 0
IsCached r i (ok a, m) = Cached r i a m
IsCached r i (raised f, m) = Unit {0}

remember_result-IsCached :
    {A : Type 0} (r : ResourceKey) (i : IdKey) (E : Engine) (o : Result A × Runner) (m : Manager)
    → IsCached r i (remember_result r i E o m)
remember_result-IsCached r i E (ok x, t) m = (
  find-assign same_resource r m.next_address m.by_res (resource_refl r),
  find-assign same_id i m.next_address m.by_ids (id_refl i),
)
remember_result-IsCached r i E (raised f, t) m = tt

-- what holds of every result of looking up the class of a workflow and going on
with_engine-holds :
    (P : Loaded → Type 0) (key : String) (f : Engine → Manager → Loaded) (m : Manager)
    → P (raised (Failure.key_error key), m)
    → ((E : Engine) → P (f E m))
    → P (with_engine key f m)
with_engine-holds P key f m missing found = go (get key m.registry)
  where
    go :
        (o : Option Engine)
        → P (elim o [ none ↦ (raised (Failure.key_error key), m) | some E ↦ f E m ])
    go none = missing
    go (some E) = found E

-- A workflow that was created is found again under its resource and under its id: both ways of loading
-- it give the object that was created and leave the manager as it is, without asking the database.
pub create-load :
    (find_one : ResourceKey → Option WorkflowData) (fetch : IdKey → Result WorkflowData) (depth : ℕ)
    (id : Uuid) (wfdef_key resource_name : String) (resource_id : Uuid) (params : Memory)
    (title : Option String) (m : Manager) (a : ℕ) (m' : Manager)
    → create depth id wfdef_key resource_name resource_id params title m ≡ (ok a, m')
    → (load_workflow find_one fetch (resource_key wfdef_key resource_name (some resource_id)) m'
        ≡ (ok a, m'))
      × (load_workflow_by_id find_one fetch (id_key wfdef_key id) m' ≡ (ok a, m'))
unfolding create load_workflow load_workflow_by_id
create-load find_one fetch depth id wfdef_key resource_name resource_id params title m a m' h =
    let r = resource_key wfdef_key resource_name (some resource_id) in
    let i = id_key wfdef_key id in
    let (p, q) : Cached r i a m' = subst (IsCached r i) h (
      with_engine-holds (IsCached r i) wfdef_key
        (λ E n.
          remember_result r i E (create_workflow E depth id title resource_id resource_name params)
            n)
        m tt
        (λ E.
          remember_result-IsCached r i E
            (create_workflow E depth id title resource_id resource_name params) m)) in
    (rw p refl, rw q refl)

abbrev IsFound : ResourceKey → Loaded → Type 0
IsFound r (ok a, m) = find same_resource r m.by_res ≡ some a
IsFound r (raised f, m) = Unit {0}

IsCached-IsFound : (r : ResourceKey) (i : IdKey) (o : Loaded) → IsCached r i o → IsFound r o
IsCached-IsFound r i (ok a, m) h = h.0
IsCached-IsFound r i (raised f, m) h = tt

-- A workflow that was loaded by its resource is loaded again as the same object, and the manager stays
-- as it is, whatever the database has by then.
pub load_workflow-load_workflow :
    (find_one later : ResourceKey → Option WorkflowData) (fetch : IdKey → Result WorkflowData)
    (key : ResourceKey) (m : Manager) (a : ℕ) (m' : Manager)
    → load_workflow find_one fetch key m ≡ (ok a, m')
    → load_workflow later fetch key m' ≡ (ok a, m')
unfolding load_workflow
load_workflow-load_workflow find_one later fetch key m a m' h =
    let p : IsFound key (ok a, m') =
      subst (IsFound key) h (go (find same_resource key m.by_res) refl) in
    rw p refl
  where
    found :
        (E : Engine) (o : Option WorkflowData) → IsFound key (load_found find_one fetch key E o m)
    found E none = tt
    found E (some w) =
        IsCached-IsFound key (id_key key.wfdef_key w.id)
          (remember_result key (id_key key.wfdef_key w.id) E (load_runner E w) m)
          (remember_result-IsCached key (id_key key.wfdef_key w.id) E (load_runner E w) m)

    go :
        (o : Option ℕ)
        → find same_resource key m.by_res ≡ o
        → IsFound key (load_cached find_one fetch key o m)
    go (some b) e = e
    go none e =
        with_engine-holds (IsFound key) key.wfdef_key
          (λ E n. load_found find_one fetch key E (find_one key) n) m tt
          (λ E. found E (find_one key))
