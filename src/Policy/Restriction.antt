-- ===== src/Policy/Restriction.antt =====
-- What the restriction of a query means.
use fluvius_py.Common.{◌≡◌, refl, sym, ◌∙◌, String, Bool, true, List, [], ◌∷◌, filter}
use fluvius_py.Exec.{ok}
use fluvius_py.Query.Statements.{Value, QueryExpression, process, as_values}
use fluvius_py.Policy.Conditions.{Condition, Conditions, to_query_statement}
use fluvius_py.Policy.Manager.{
  same_scope, PolicyMeta, PolicyData, PolicyRequest, PolicyManager, reconcile_scope, parse_metas,
  reconcile_policies, collect_conditions, reconcile_condition, generate_restriction,
}
use fluvius_py.Policy.Meaning.{
  meaning, all_of, all_expressions, holds, IsWellFormed, AreWellFormed, and_true,
  to_query_statement-meaning, to_query_statement-positive, all_positive, positive,
}

-- the statement of a row of conditions that must all hold
abbrev pub Means : (String → String → Value → Bool) → Conditions → Value → Type 0
Means test cs v =
    (es : List QueryExpression) × (process [] v ≡ ok es)
    × (all_expressions test es ≡ all_of test cs)

node-Means :
    (test : String → String → Value → Bool) (cs : Conditions)
    → AreWellFormed cs
    → Means test cs (to_query_statement (Condition.node cs Conditions.no_conditions))
unfolding to_query_statement process holds meaning IsWellFormed
node-Means test Conditions.no_conditions h = ([], refl, refl)
node-Means test (Conditions.condition c cs) h =
    let (es, done, same) =
      to_query_statement-meaning test
        (Condition.node (Conditions.condition c cs) Conditions.no_conditions) (refl, h, tt) in
    (es, done, same ∙ sym (and_true test (all_of test (Conditions.condition c cs))))

-- The restriction that conditions become, where they are well-formed.
pub reconcile_condition-Means :
    (test : String → String → Value → Bool) (m : PolicyManager) (req : PolicyRequest)
    (p : PolicyData) (ps : List PolicyData) (metas : List PolicyMeta) (cs : Conditions)
    → parse_metas m (filter (λ q. same_scope q.scope (reconcile_scope (p ∷ ps))) (p ∷ ps))
      ≡ ok metas
    → collect_conditions m req (reconcile_scope (p ∷ ps)) metas ≡ ok cs
    → AreWellFormed cs
    → (v : Value) × (generate_restriction m req (p ∷ ps) ≡ ok v) × Means test cs v
unfolding generate_restriction reconcile_policies reconcile_condition to_query_statement process
    IsWellFormed positive
reconcile_condition-Means test m req p ps metas cs parsed collected h = (
  to_query_statement (Condition.node cs Conditions.no_conditions),
  rw (parsed, collected) refl,
  node-Means test cs h,
)

-- The value is a scope without a negation.
abbrev pub IsPositive : Value → Type 0
IsPositive v =
    (es : List QueryExpression) × (process [] v ≡ ok es) × (all_positive (as_values es) ≡ true)

pub generate_restriction-IsPositive :
    (m : PolicyManager) (req : PolicyRequest) (p : PolicyData) (ps : List PolicyData)
    (metas : List PolicyMeta) (cs : Conditions)
    → parse_metas m (filter (λ q. same_scope q.scope (reconcile_scope (p ∷ ps))) (p ∷ ps))
      ≡ ok metas
    → collect_conditions m req (reconcile_scope (p ∷ ps)) metas ≡ ok cs
    → AreWellFormed cs
    → (v : Value) × (generate_restriction m req (p ∷ ps) ≡ ok v) × IsPositive v
unfolding generate_restriction reconcile_policies reconcile_condition to_query_statement process
    IsWellFormed positive
generate_restriction-IsPositive m req p ps metas cs parsed collected h = (
  to_query_statement (Condition.node cs Conditions.no_conditions),
  rw (parsed, collected) refl,
  of_node cs h,
)
  where
    of_node :
        (ds : Conditions)
        → AreWellFormed ds
        → IsPositive (to_query_statement (Condition.node ds Conditions.no_conditions))
    of_node Conditions.no_conditions k = ([], refl, refl)
    of_node (Conditions.condition d ds) k =
        to_query_statement-positive
          (Condition.node (Conditions.condition d ds) Conditions.no_conditions) (refl, k, tt)
