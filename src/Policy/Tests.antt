-- ===== src/Policy/Tests.antt =====
-- Conditions and policies at work.
use fluvius_py.Common.{◌≡◌, refl, String, Bool, true, false, none, some, List, [], ◌∷◌, inr, str_eq}
use fluvius_py.Exec.{ok}
use fluvius_py.Query.Statements.{Value, QueryExpression, process}
use fluvius_py.Policy.Conditions.{Condition, Conditions, to_query_statement, render}
use fluvius_py.Policy.Manager.{
  PolicyScope, PolicyMeta, PolicyData, PolicyRequest, PolicyManager, reconcile_scope, parse_metas,
  reconcile_policies, collect_conditions, reconcile_condition, generate_restriction,
  generate_narration, check_permission,
}
use fluvius_py.Policy.Meaning.{AreWellFormed, meaning, all_expressions, IsWellFormed}
use fluvius_py.Policy.Asked.{AreUsable, all_ask, generate_restriction-Means}

abbrev own : Condition
own = Condition.leaf "owner" "eq" (Value.text "me")

abbrev shared : Condition
shared = Condition.leaf "public" "eq" (Value.text "yes")

abbrev pub both : Condition
both =
    Condition.node
      (Conditions.condition own (
        Conditions.condition
          (Condition.node Conditions.no_conditions
            (Conditions.condition shared Conditions.no_conditions))
          Conditions.no_conditions))
      Conditions.no_conditions

abbrev test : String → String → Value → Bool
test field op value = str_eq field "owner"

-- A node with an ALL and an ANY: its ANY is lost, and the statement holds of more than the condition.
abbrev mixed : Condition
mixed =
    Condition.node (Conditions.condition own Conditions.no_conditions)
      (Conditions.condition shared Conditions.no_conditions)

mixed_lost :
    to_query_statement mixed
    ≡ to_query_statement (
        Condition.node (Conditions.condition own Conditions.no_conditions) Conditions.no_conditions)
unfolding to_query_statement
mixed_lost = refl

mixed_means : meaning test mixed ≡ false
unfolding meaning
mixed_means = refl

abbrev pub tenant_policy : PolicyData
tenant_policy = record {
  role = "user";
  cqrs = "QUERY";
  act = "people.user";
  scope = PolicyScope.tenant;
  meta = "m";
}

abbrev pub policies : List PolicyData
policies = tenant_policy ∷ []

abbrev pub manager : PolicyManager
manager = record {
  super_admin_role = "sys";
  enforce = λ req. ok (true, policies);
  parse_meta =
      λ text. ok (record { for_system = none; for_tenant = some both; for_resource = none });
  render_value = λ req value. ok value;
}

abbrev pub request : PolicyRequest
request = record { iamroles = "user" ∷ []; cqrs = "QUERY"; act = "people.user"; rid = "" }

restricted :
    check_permission manager request
    ≡ ok (record {
      allowed = true;
      policies = policies;
      restriction = to_query_statement (
          Condition.node
            (Conditions.condition both Conditions.no_conditions)
            Conditions.no_conditions);
    })
unfolding check_permission generate_narration generate_restriction reconcile_policies
    reconcile_scope parse_metas reconcile_condition collect_conditions render
restricted = refl

abbrev pub meta : PolicyMeta
meta = record { for_system = none; for_tenant = some both; for_resource = none }

pub both_well : AreWellFormed (Conditions.condition both Conditions.no_conditions)
unfolding IsWellFormed
both_well = (
  (
    refl,
    (
      ((refl, (refl, (refl, (refl, (refl, tt))))), refl, (refl, (refl, tt)), refl),
      (
        (
          refl,
          tt,
          (
            ((refl, (refl, (refl, (refl, (refl, (refl, tt)))))), refl, (refl, (refl, tt)), refl),
            tt,
          ),
        ),
        tt,
      ),
    ),
    tt,
  ),
  tt,
)

-- a policy of a narrower scope, whose meta is not read
abbrev owned_policy : PolicyData
owned_policy = record tenant_policy { scope = PolicyScope.resource; meta = "unread" }

two_usable : AreUsable manager request PolicyScope.tenant (owned_policy ∷ tenant_policy ∷ [])
unfolding render IsWellFormed
two_usable = (λ e. absurd (cc e), (λ e. inr (refl, meta, refl, (both, refl, inr both_well.0)), tt))

generate_restriction-Means_example :
    (v : Value) × (es : List QueryExpression) × (generate_restriction manager request
        (owned_policy ∷ tenant_policy ∷ [])
      ≡ ok v)
    × (process [] v ≡ ok es)
    × (all_expressions test es
        ≡ all_ask manager request PolicyScope.tenant test (owned_policy ∷ tenant_policy ∷ []))
generate_restriction-Means_example =
    generate_restriction-Means test manager request PolicyScope.tenant owned_policy
      (tenant_policy ∷ []) (refl, refl) two_usable
