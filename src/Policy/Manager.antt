-- ===== src/Policy/Manager.antt =====
-- casbin/manager.py: the answer to a request and the restriction that it carries.
use fluvius_py.Common.{
  String, Bool, true, false, ◌||◌, Option, none, some, List, [], ◌∷◌, str_eq, any, filter,
  if◌then◌else◌,
}
use fluvius_py.Exec.{Failure, Result, ok, raised, and_then}
use fluvius_py.Query.Statements.{Value, Members}
use fluvius_py.Policy.Conditions.{Condition, Conditions, has_conditions, to_query_statement, render}

pub data PolicyScope : Type 0 where
  system : PolicyScope
  tenant : PolicyScope
  resource : PolicyScope

abbrev pub same_scope : PolicyScope → PolicyScope → Bool
same_scope PolicyScope.system PolicyScope.system = true
same_scope PolicyScope.tenant PolicyScope.tenant = true
same_scope PolicyScope.resource PolicyScope.resource = true
same_scope PolicyScope.system PolicyScope.tenant = false
same_scope PolicyScope.system PolicyScope.resource = false
same_scope PolicyScope.tenant PolicyScope.system = false
same_scope PolicyScope.tenant PolicyScope.resource = false
same_scope PolicyScope.resource PolicyScope.system = false
same_scope PolicyScope.resource PolicyScope.tenant = false

-- `PolicyCondition`: the condition of each scope
pub record PolicyMeta : Type 0 where
  pub for_system : Option Condition
  pub for_tenant : Option Condition
  pub for_resource : Option Condition

-- a policy that matched; no meta is an empty text
pub record PolicyData : Type 0 where
  pub role : String
  pub cqrs : String
  pub act : String
  pub scope : PolicyScope
  pub meta : String

pub record PolicyRequest : Type 0 where
  pub iamroles : List String
  pub cqrs : String
  pub act : String
  pub rid : String

pub record PolicyResponse : Type 0 where
  pub allowed : Bool
  pub policies : List PolicyData
  pub restriction : Value

-- The manager: the role that may do everything, and code of other parts: the casbin enforcer with the
-- loading of its policies, the parser of a policy's meta, and the values of a request's context.
pub record PolicyManager : Type 0 where
  pub super_admin_role : String
  pub enforce : PolicyRequest → Result (Bool × List PolicyData)
  pub parse_meta : String → Result PolicyMeta
  pub render_value : PolicyRequest → Value → Result Value

abbrev pub has_scope : PolicyScope → List PolicyData → Bool
has_scope scope policies = any (λ p. same_scope p.scope scope) policies

unfoldable pub reconcile_scope : List PolicyData → PolicyScope
reconcile_scope policies =
    if has_scope PolicyScope.system policies
    then PolicyScope.system
    else if has_scope PolicyScope.tenant policies
    then PolicyScope.tenant
    else if has_scope PolicyScope.resource policies
    then PolicyScope.resource
    else PolicyScope.system

abbrev pub condition_for : PolicyScope → PolicyMeta → Option Condition
condition_for PolicyScope.system meta = meta.for_system
condition_for PolicyScope.tenant meta = meta.for_tenant
condition_for PolicyScope.resource meta = meta.for_resource

abbrev pub is_restricting : Condition → Bool
is_restricting (Condition.leaf field op value) = false
is_restricting (Condition.node all some_) = has_conditions all || has_conditions some_

module _ (m : PolicyManager) where
  unfoldable pub parse_metas : List PolicyData → Result (List PolicyMeta)
  parse_metas [] = ok []
  parse_metas (p ∷ ps) =
      let rest = parse_metas ps in
      if str_eq p.meta ""
      then rest
      else and_then (m.parse_meta p.meta) λ meta. and_then rest λ metas. ok (meta ∷ metas)

  unfoldable pub reconcile_policies : List PolicyData → Result (PolicyScope × List PolicyMeta)
  reconcile_policies policies =
      let scope = reconcile_scope policies in
      and_then (parse_metas (filter (λ p. same_scope p.scope scope) policies))
        λ metas. ok (scope, metas)

  abbrev pub keep_rendered : Condition → Conditions → Conditions
  keep_rendered rendered cs =
      if is_restricting rendered then Conditions.condition rendered cs else cs

  -- the loop of `_reconcile_condition`
  unfoldable pub collect_conditions :
      PolicyRequest → PolicyScope → List PolicyMeta → Result Conditions
  collect_conditions req scope [] = ok Conditions.no_conditions
  collect_conditions req scope (meta ∷ metas) =
      let rest = collect_conditions req scope metas in
      elim (condition_for scope meta) [
        | none ↦ rest
        | some c ↦
            and_then (render (m.render_value req) c)
              λ rendered. and_then rest λ cs. ok (keep_rendered rendered cs)
      ]

  unfoldable pub reconcile_condition :
      PolicyRequest → PolicyScope → List PolicyMeta → Result Condition
  reconcile_condition req scope metas =
      and_then (collect_conditions req scope metas)
        λ cs. ok (Condition.node cs Conditions.no_conditions)

  unfoldable pub generate_restriction : PolicyRequest → List PolicyData → Result Value
  generate_restriction req [] = ok (Value.object Members.no_members)
  generate_restriction req (p ∷ ps) = and_then (reconcile_policies (p ∷ ps)) λ (scope, metas).
      and_then (reconcile_condition req scope metas) λ c. ok (to_query_statement c)

  unfoldable pub generate_narration : PolicyRequest → Bool → List PolicyData → Result PolicyResponse
  generate_narration req allowed policies =
      and_then
        (if str_eq req.cqrs "QUERY"
          then generate_restriction req policies
          else ok (Value.object Members.no_members))
        λ restriction.
          ok (record { allowed = allowed; policies = policies; restriction = restriction })

  -- `except Exception`
  abbrev pub or_forbidden : {A : Type 0} → Result A → Result A
  or_forbidden (ok a) = ok a
  or_forbidden (raised e) = raised (Failure.forbidden "C00.203")

  unfoldable pub check_permission : PolicyRequest → Result PolicyResponse
  check_permission req =
      if any (str_eq m.super_admin_role) req.iamroles
      then ok
          (record { allowed = true; policies = []; restriction = Value.object Members.no_members })
      else or_forbidden
          (and_then (m.enforce req) λ (allowed, policies). generate_narration req allowed policies)
