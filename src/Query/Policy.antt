-- ===== src/Query/Policy.antt =====
-- What a client gets when the policies of a resource are checked.
use fluvius_py.Common.{◌≡◌, String, true, inl, inr, Bool-cases, Option, some, List, []}
use fluvius_py.Exec.{Result, ok, and_then_ok, ok_inj}
use fluvius_py.Query.Statements.{Value, process}
use fluvius_py.Query.Resources.{QueryResource}
use fluvius_py.Query.Manager.{
  FrontendQuery, BackendQuery, PolicyRequest, PolicyResponse, Manager, policy_request, checked,
  authorize_by_policy,
}
use fluvius_py.Query.Guard.{Guarded}

checked_ok :
    (m : Manager) (resp : PolicyResponse) {scope : Value}
    → checked m resp ≡ ok scope
    → (resp.allowed ≡ true) × (resp.restriction ≡ scope)
unfolding checked
checked_ok m resp h = elim (Bool-cases resp.allowed) [
  | inl granted ↦ (granted, ok_inj (rw granted at h))
  | inr denied ↦ absurd (cc (rw denied at h))
]

pub authorize_ok :
    (m : Manager) (check : PolicyRequest → Result PolicyResponse) (client : String)
    (r : QueryResource) (scope : Value)
    → m.query_permission ≡ true
    → r.meta.policy_required ≡ true
    → m.policymgr ≡ some check
    → authorize_by_policy m (some client) r ≡ ok scope
    → (resp : PolicyResponse) × (check (policy_request m r client) ≡ ok resp)
      × (resp.allowed ≡ true)
      × (resp.restriction ≡ scope)
unfolding authorize_by_policy
authorize_ok m check client r scope on required present h =
    let (resp, asked, given) =
      and_then_ok (check (policy_request m r client)) _ (rw (on, required, present) at h) in
    let (allowed, same) = checked_ok m resp given in (resp, asked, allowed, same)

-- The data layer gave the rows for a query that the policy manager allowed and restricted.
abbrev pub Authorized :
    Manager
    → (PolicyRequest → Result PolicyResponse)
    → String
    → QueryResource
    → Option String
    → FrontendQuery
    → List Value
    → Type 0
Authorized m check client r item q rows =
    (b : BackendQuery) × (m.execute b ≡ ok rows)
    × Guarded m (some client) r item q b
    × (resp : PolicyResponse) × (check (policy_request m r client) ≡ ok resp)
    × (resp.allowed ≡ true)
    × (process [] resp.restriction ≡ ok b.scope)
