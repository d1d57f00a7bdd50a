-- ===== src/Data/Restricted.antt =====
-- The restriction of the policies, from the request of a client to the rows of the database.
use fluvius_py.Common.{◌≡◌, sym, ◌∙◌, ap, String, Bool, true, List, [], ◌∷◌, Option, some, filter}
use fluvius_py.Common.Dict.{Dict, get}
use fluvius_py.Exec.{Result, ok, and_then_ok, ok_inj}
use fluvius_py.Query.Statements.{Value, as_values, process, process_query_statement}
use fluvius_py.Query.Resources.{QueryResource}
use fluvius_py.Query.Manager.{
  FrontendQuery, BackendQuery, PolicyRequest, PolicyResponse, Manager, policy_request,
  prepare_query, lookup_query_resource, validate_fe_query, authorize_by_policy,
  construct_backend_query,
}
use fluvius_py.Query.Policy.{authorize_ok}
use fluvius_py.Query.Select.{process_sort}
use fluvius_py.Policy.Conditions.{Conditions}
use fluvius_py.Policy.Manager.{
  same_scope, PolicyMeta, PolicyData, PolicyManager, reconcile_scope, parse_metas,
  collect_conditions, generate_restriction,
}
use fluvius_py.Policy.Manager as Policies
use fluvius_py.Policy.Meaning.{all_of, all_positive, all_expressions, AreWellFormed}
use fluvius_py.Policy.Restriction.{reconcile_condition-Means, generate_restriction-IsPositive}
use fluvius_py.Data.Columns.{Schema}
use fluvius_py.Data.Clauses.{Sqlalchemy, where_clauses, sort_clauses}
use fluvius_py.Data.Statements.{Select, build_select, select_columns, chosen_names, build_join}
use fluvius_py.Data.Where.{scope_lem}
use fluvius_py.Data.Truth.{Truth, takes, IsSql}
use fluvius_py.Data.Meaning.{leaf_truth}
use fluvius_py.Data.Positive.{plain_test, all_positive-Say, all_positive-filled}

construct-scope :
    (m : Manager) (auth : Option String) (r : QueryResource) (q : FrontendQuery)
    (item : Option String) (scope : Value) (b : BackendQuery)
    → construct_backend_query m auth r q item scope ≡ ok b
    → process [] scope ≡ ok b.scope
unfolding construct_backend_query
construct-scope m auth r q item scope b h =
    let (conditions, asked, more) =
      and_then_ok
        (process_query_statement r.field_filters
          (q.user_query ∷ q.path_query ∷ m.base_query auth q.scope ∷ []))
        _ h in
    let (sorts, sorted, rest) = and_then_ok (process_sort r q.sort) _ more in
    let (limits, read, made) = and_then_ok (process [] scope) _ rest in
    read ∙ ap (λ (x : BackendQuery). ok x.scope) (ok_inj made)

-- The data layer's query of a client has the restriction of the policy manager's answer as its scope.
prepare_query-scope :
    (m : Manager) (check : PolicyRequest → Result PolicyResponse) (client key : String)
    (item : Option String) (q : FrontendQuery) (r : QueryResource) (b : BackendQuery)
    → m.query_permission ≡ true
    → m.policymgr ≡ some check
    → get key m.resources ≡ some r
    → r.meta.policy_required ≡ true
    → prepare_query m (some client) key item q ≡ ok b
    → (resp : PolicyResponse) × (check (policy_request m r client) ≡ ok resp)
      × (resp.allowed ≡ true)
      × (process [] resp.restriction ≡ ok b.scope)
unfolding prepare_query lookup_query_resource
prepare_query-scope m check client key item q r b on present found required h =
    let (valid, checks, rest) = and_then_ok (validate_fe_query r q) _ (rw found at h) in
    let (scope, granted, last) = and_then_ok (authorize_by_policy m (some client) r) _ rest in
    let (resp, answered, allowed, same) =
      authorize_ok m check client r scope on required present granted in
    (
      resp,
      answered,
      allowed,
      ap (process []) same ∙ construct-scope m (some client) r valid item scope b last,
    )

module _ {Clause Row : Type 0} (sql : Sqlalchemy Clause) (truth : Clause → Row → Truth)
    (registry : Dict Schema) (schema : Schema) where
  -- what a condition on a field, with an operator that is not negated, says of a row
  abbrev pub row_test : Row → String → String → Value → Bool
  row_test row = plain_test (leaf_truth sql truth registry schema row)

  positive_scope :
      (laws : IsSql sql truth) (q : BackendQuery) (cs : List Clause) (row : Row)
      → all_positive (as_values q.scope) ≡ true
      → where_clauses sql registry schema q ≡ ok cs
      → takes sql truth cs row ≡ true
      → all_expressions (row_test row) q.scope ≡ true
  positive_scope laws q cs row plain made h =
      let leaf : String → String → String → Value → Truth =
        leaf_truth sql truth registry schema row in
      let (every, one) = all_positive-Say leaf (as_values q.scope) plain in
      let full = all_positive-filled (as_values q.scope) plain in
      sym every ∙ scope_lem sql truth registry schema row laws q cs full made h

-- A resource whose policies are required, asked by a known client of a manager that checks them, where
-- the policy manager's answer carries the restriction that it generates from the policies that
-- matched, with well-formed conditions for their scope. Whatever the client asks, if its query
-- becomes a query of the data layer and this a select, then every row that the select takes
-- meets all the conditions, where a condition on a field says of a row what the clause of its
-- field, operator and value says.
pub build_select-restricted :
    {Clause Row : Type 0} (sql : Sqlalchemy Clause) (truth : Clause → Row → Truth)
    (registry : Dict Schema) (schema : Schema) (m : Manager)
    (check : PolicyRequest → Result PolicyResponse) (client key : String) (item : Option String)
    (fq : FrontendQuery) (r : QueryResource) (resp : PolicyResponse) (pm : PolicyManager)
    (req : Policies.PolicyRequest) (p : PolicyData) (ps : List PolicyData) (metas : List PolicyMeta)
    (cs : Conditions) (q : BackendQuery) (s : Select Clause) (row : Row)
    → IsSql sql truth
    → m.query_permission ≡ true
    → m.policymgr ≡ some check
    → get key m.resources ≡ some r
    → r.meta.policy_required ≡ true
    → check (policy_request m r client) ≡ ok resp
    → generate_restriction pm req (p ∷ ps) ≡ ok resp.restriction
    → parse_metas pm (filter (λ d. same_scope d.scope (reconcile_scope (p ∷ ps))) (p ∷ ps))
      ≡ ok metas
    → collect_conditions pm req (reconcile_scope (p ∷ ps)) metas ≡ ok cs
    → AreWellFormed cs
    → prepare_query m (some client) key item fq ≡ ok q
    → build_select sql registry schema q ≡ ok s
    → takes sql truth s.where_ row ≡ true
    → all_of (row_test sql truth registry schema row) cs ≡ true
unfolding build_select
build_select-restricted sql truth registry schema m check client key item fq r resp pm req p ps
      metas cs q s row laws on present found required answered generated parsed collected well
      prepared selected taken_ =
    let (answer, said, allowed, read) =
      prepare_query-scope m check client key item fq r q on present found required prepared in
    let same : answer ≡ resp = ok_inj (sym said ∙ answered) in
    let (v, gives, (es, accepted, means)) =
      reconcile_condition-Means (row_test sql truth registry schema row) pm req p ps metas cs parsed
        collected well in
    let (w, given, (fs, taken_in, plain)) =
      generate_restriction-IsPositive pm req p ps metas cs parsed collected well in
    let v_is : v ≡ resp.restriction = ok_inj (sym gives ∙ generated) in
    let w_is : w ≡ resp.restriction = ok_inj (sym given ∙ generated) in
    let here : process [] resp.restriction ≡ ok q.scope =
      ap (λ (x : PolicyResponse). process [] x.restriction) (sym same) ∙ read in
    let es_is : es ≡ q.scope = ok_inj (sym accepted ∙ ap (process []) v_is ∙ here) in
    let fs_is : fs ≡ q.scope = ok_inj (sym taken_in ∙ ap (process []) w_is ∙ here) in
    let (columns, one, more) =
      and_then_ok (select_columns sql registry schema q.alias (chosen_names sql registry schema q))
        _ selected in
    let (join, two, rest) = and_then_ok (build_join sql registry schema q.join) _ more in
    let (ks, three, last) = and_then_ok (where_clauses sql registry schema q) _ rest in
    let (order, four, made) = and_then_ok (sort_clauses sql registry schema q.sort) _ last in
    sym means
    ∙ ap (all_expressions (row_test sql truth registry schema row)) es_is
    ∙ positive_scope sql truth registry schema laws q ks row
        (ap (λ xs. all_positive (as_values xs)) (sym fs_is) ∙ plain) three
        (ap (λ (x : Select _). takes sql truth x.where_ row) (ok_inj made) ∙ taken_)
