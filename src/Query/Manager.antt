-- ===== src/Query/Manager.antt =====
-- query/manager.py: a query of a client is checked and becomes a query of the data layer.
use Prim.Native.String.{◌++◌ as str_append}
use fluvius_py.Common.{
  ℕ, zero, suc, ◌*◌, String, Bool, false, not, ◌&&◌, ◌||◌, Option, none, some, List, [], ◌∷◌,
  str_eq, is_some, if◌then◌else◌,
}
use fluvius_py.Common.Int.{ℤ, pos, negsuc}
use fluvius_py.Common.Dict.{Dict, get, put}
use fluvius_py.Exec.{Failure, Result, ok, raised, and_then, require}
use fluvius_py.Query.Statements.{Value, QueryExpression, process, process_query_statement}
use fluvius_py.Query.Resources.{Presets, ResourceClass, QueryResource, initialize_resource}
use fluvius_py.Query.Select.{process_select, process_sort}

-- `page - 1` and `n * limit` on Python's integers
abbrev pub pred : ℤ → ℤ
pred (pos zero) = negsuc 0
pred (pos (suc n)) = pos n
pred (negsuc n) = negsuc (suc n)

abbrev pub opposite : ℕ → ℤ
opposite zero = pos 0
opposite (suc n) = negsuc n

abbrev pub times : ℤ → ℤ → ℤ
times (pos a) (pos b) = pos (a * b)
times (pos a) (negsuc b) = opposite (a * suc b)
times (negsuc a) (pos b) = opposite (suc a * b)
times (negsuc a) (negsuc b) = pos (suc a * suc b)

abbrev pub offset_of : ℤ → ℤ → ℤ
offset_of page limit = times (pred page) limit

-- `{v: k for k, v in d.items()}`
unfoldable pub inverse : Dict String → Dict String → Dict String
inverse done [] = done
inverse done ((k, v) ∷ d) = inverse (put v k done) d

-- `_alias` of a resource
abbrev pub alias_of : QueryResource → Dict String
alias_of r = inverse [] r.fieldmap

-- `FrontendQuery`; what is not given is a null, an empty list or an empty text
pub record FrontendQuery : Type 0 where
  pub limit : ℤ
  pub page : ℤ
  pub include : List String
  pub exclude : List String
  pub sort : List String
  pub user_query : Value
  pub path_query : Value
  pub scope : Value
  pub text : String

-- `JoinStatement`, without the condition, which nothing reads
pub record JoinStatement : Type 0 where
  pub local_field : String
  pub foreign_table : String
  pub foreign_field : String

pub record BackendQuery : Type 0 where
  pub identifier : Option String
  pub include : List String
  pub exclude : List String
  pub limit : ℤ
  pub offset : ℤ
  pub sort : List (String × String)
  pub where_ : List QueryExpression
  pub scope : List QueryExpression
  pub alias : Dict String
  pub etag : Option String
  pub join : List JoinStatement
  pub incl_deleted : Bool
  pub text : String

pub record PolicyRequest : Type 0 where
  pub auth_ctx : String
  pub act : String

-- what the policy manager answers: whether it allows, and the restriction of the scope
pub record PolicyResponse : Type 0 where
  pub allowed : Bool
  pub restriction : Value

-- A manager with its resources. The second group is code of the application and of other parts: the
-- override of `base_query`, the policy manager, the data layer, and the order of Python's sets.
pub record Manager : Type 0 where
  pub prefix : String
  pub resources : Dict QueryResource
  pub query_permission : Bool
  pub base_query : Option String → Value → Value
  pub policymgr : Option (PolicyRequest → Result PolicyResponse)
  pub execute : BackendQuery → Result (List Value)
  pub arrange : List String → List String

-- `register_resource`
unfoldable pub register_resource : Presets → String → ResourceClass → Manager → Result Manager
register_resource presets identifier cls m =
    if is_some cls.initialized
    then raised (Failure.bad_request "Q00.513")
    else and_then (initialize_resource presets identifier cls) λ r.
      if is_some (get identifier m.resources)
      then raised (Failure.bad_request "Q00.514")
      else ok (record m { resources = put identifier r m.resources })

unfoldable pub lookup_query_resource : Manager → String → Result QueryResource
lookup_query_resource m identifier =
    require (Failure.key_error identifier) (get identifier m.resources)

unfoldable pub validate_fe_query : QueryResource → FrontendQuery → Result FrontendQuery
validate_fe_query r q =
    if not (str_eq q.text "") && not r.meta.allow_text_search
    then raised (Failure.bad_request "Q00.502")
    else ok q

module _ (m : Manager) where
  abbrev pub policy_request : QueryResource → String → PolicyRequest
  policy_request r auth = record {
    auth_ctx = auth;
    act = str_append m.prefix (str_append "." r.identifier);
  }

  unfoldable pub checked : PolicyResponse → Result Value
  checked resp = if resp.allowed then ok resp.restriction else raised (Failure.forbidden "Q00.004")

  -- with a policy manager, and a client that is known
  unfoldable pub authorize_by_policy : Option String → QueryResource → Result Value
  authorize_by_policy auth r =
      if not m.query_permission || not r.meta.policy_required
      then ok Value.null
      else elim m.policymgr [
        | none ↦ ok Value.null
        | some check ↦ elim auth [
          | none ↦ ok Value.null
          | some client ↦ and_then (check (policy_request r client)) checked
        ]
      ]

  unfoldable pub construct_backend_query :
      Option String → QueryResource → FrontendQuery → Option String → Value → Result BackendQuery
  construct_backend_query auth r q identifier policy_scope =
      let base = m.base_query auth q.scope in
      and_then (process_query_statement r.field_filters (q.user_query ∷ q.path_query ∷ base ∷ []))
        λ where_. and_then (process_sort r q.sort) λ sort.
          let (include, exclude) = process_select m.arrange r q.include q.exclude in
          and_then (process [] policy_scope) λ scope. ok (record {
            identifier = identifier;
            include = include;
            exclude = exclude;
            limit = q.limit;
            offset = offset_of q.page q.limit;
            sort = sort;
            where_ = where_;
            scope = scope;
            alias = alias_of r;
            etag = none;
            join = [];
            incl_deleted = false;
            text = q.text;
          })

  -- what the two queries of a client share: checks, the policy, and the query of the data layer
  unfoldable pub prepare_query :
      Option String → String → Option String → FrontendQuery → Result BackendQuery
  prepare_query auth query_identifier item q =
      and_then (lookup_query_resource m query_identifier) λ r.
        and_then (validate_fe_query r q) λ valid.
          and_then (authorize_by_policy auth r)
            λ policy_scope. construct_backend_query auth r valid item policy_scope

  unfoldable pub query_resource : Option String → String → FrontendQuery → Result (List Value)
  query_resource auth query_identifier q =
      and_then (prepare_query auth query_identifier none q) m.execute

  abbrev pub first_item : List Value → Result Value
  first_item [] = raised (Failure.not_found "Q00.501")
  first_item (v ∷ vs) = ok v

  unfoldable pub query_item : Option String → String → String → FrontendQuery → Result Value
  query_item auth query_identifier item q =
      and_then (and_then (prepare_query auth query_identifier (some item) q) m.execute) first_item
