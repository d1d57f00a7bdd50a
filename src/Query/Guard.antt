-- ===== src/Query/Guard.antt =====
-- What a manager of queries hands to the data layer.
use fluvius_py.Common.{
  ◌≡◌, sym, ◌∙◌, subst, String, Bool, true, false, not, ◌&&◌, inl, inr, Bool-cases, Option, some,
  [], str_eq, is_some, if◌then◌else◌,
}
use fluvius_py.Common.Dict.{get, put, get-put_eq, get-put_ne}
use fluvius_py.Exec.{Failure, ok, raised, and_then, and_then_ok, ok_inj}
use fluvius_py.Query.Statements.{Value, process}
use fluvius_py.Query.Resources.{Presets, ResourceClass, QueryResource, initialize_resource}
use fluvius_py.Query.Manager.{
  FrontendQuery, BackendQuery, Manager, register_resource, validate_fe_query, authorize_by_policy,
  offset_of,
}
use fluvius_py.Query.Permitted.{Permitted}
use fluvius_py.Query.Built.{Origin, AreFull}
use fluvius_py.Query.Initialized.{Valid, initialize_resource-Valid}

-- Every resource of the manager was made of its class.
abbrev pub AreValid : Manager → Type 0
AreValid m = (key : String) (r : QueryResource) → get key m.resources ≡ some r → Valid r

pub some_inj : {A : Type 0} {a b : A} → some a ≡ some b → a ≡ b
some_inj h = cc h

-- Registering a resource keeps that every resource of the manager is what its class says.
pub register_resource-AreValid :
    (presets : Presets) (identifier : String) (cls : ResourceClass) (m n : Manager)
    → AreFull presets
    → AreValid m
    → register_resource presets identifier cls m ≡ ok n
    → AreValid n
unfolding register_resource
register_resource-AreValid presets identifier cls m n full valid h =
    by_flag (is_some cls.initialized) h
  where
    by_key :
        (r : QueryResource)
        → Valid r
        → AreValid (record m { resources = put identifier r m.resources })
    by_key r good key found e = elim (Bool-cases (str_eq identifier key)) [
      | inl same ↦
          subst Valid (some_inj (sym (get-put_eq identifier key r m.resources same) ∙ e)) good
      | inr other ↦ valid key found (sym (get-put_ne identifier key r m.resources other) ∙ e)
    ]

    by_flag :
        (x : Bool)
        → (if x
            then raised (Failure.bad_request "Q00.513")
            else and_then (initialize_resource presets identifier cls) λ r.
              if is_some (get identifier m.resources)
              then raised (Failure.bad_request "Q00.514")
              else ok (record m { resources = put identifier r m.resources }))
          ≡ ok n
        → AreValid n
    by_flag true h = absurd (cc h)
    by_flag false h =
        let (r, made, more) = and_then_ok (initialize_resource presets identifier cls) _ h in
        elim (Bool-cases (is_some (get identifier m.resources))) [
          | inl taken ↦ absurd (cc (rw taken at more))
          | inr new ↦
              subst AreValid (ok_inj (rw new at more))
                (by_key r (initialize_resource-Valid presets identifier cls r full made).0)
        ]

pub validate_fe_query-same :
    (r : QueryResource) (q : FrontendQuery) {checked : FrontendQuery}
    → validate_fe_query r q ≡ ok checked
    → checked ≡ q
unfolding validate_fe_query
validate_fe_query-same r q h =
    elim (Bool-cases (not (str_eq q.text "") && not r.meta.allow_text_search)) [
      | inl bad ↦ absurd (cc (rw bad at h))
      | inr good ↦ sym (ok_inj (rw good at h))
    ]

-- The conditions of a query come from the filters of the resource, the scope from the policy, and the
-- limit and the offset from the page.
abbrev pub Guarded :
    Manager → Option String → QueryResource → Option String → FrontendQuery → BackendQuery → Type 0
Guarded m auth r item q b =
    Permitted (Origin r.meta.fields) b.where_
    × (scope : Value) × (authorize_by_policy m auth r ≡ ok scope)
    × (process [] scope ≡ ok b.scope)
    × (b.identifier ≡ item)
    × (b.limit ≡ q.limit)
    × (b.offset ≡ offset_of q.page q.limit)
