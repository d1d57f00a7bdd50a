-- ===== src/Data/Tests.antt =====
-- Queries of a small database.
use fluvius_py.Common.{
  ◌≡◌, refl, true, false, not, [], ◌∷◌, none, some, str_eq, any, all, or_default, ◌⊎◌,
}
use fluvius_py.Common.Dict.{Dict, get, put}
use fluvius_py.Exec.{Result, ok, raised}
use fluvius_py.Query.Statements.{
  Value, Members, QueryExpression, process, process_query_statement, member_expression,
  operator_statement, split, from_parts, field_expression, composite_expression, get_filter,
  expression,
}
use fluvius_py.Query.Select.{split_dots, sort_parts, sort_each, process_sort, process_select}
use fluvius_py.Query.Manager.{
  BackendQuery, PolicyRequest, PolicyResponse, Manager, inverse, lookup_query_resource,
  validate_fe_query, checked, authorize_by_policy, construct_backend_query, prepare_query,
}
use fluvius_py.Query.Tests as Q
use fluvius_py.Policy.Conditions.{Condition, Conditions, to_query_statement, render}
use fluvius_py.Policy.Manager.{
  reconcile_scope, parse_metas, reconcile_policies, collect_conditions, reconcile_condition,
  generate_restriction,
}
use fluvius_py.Policy.Meaning.{all_of}
use fluvius_py.Policy.Tests as P
use fluvius_py.Data.Columns.{Schema, Column, by_mode, field_operator, partition, field}
use fluvius_py.Data.Clauses.{
  composite_operator, apply_operator, leaf_clause, group_clause, gen_query, build_expression,
  identifier_clauses, deleted_clauses, text_clauses, where_clauses, sort_clauses,
}
use fluvius_py.Data.Statements.{
  Select, Statement, build_values, build_join, select_columns, build_select, build_delete,
  build_update, chosen_names,
}
use fluvius_py.Data.Truth.{Truth, opposite_of, takes}
use fluvius_py.Data.Filled.{filled, has_expressions}
use fluvius_py.Data.Where.{asks}
use fluvius_py.Data.Taken.{Updates, Deletes, build_select-take}
use fluvius_py.Data.Restricted.{row_test, build_select-restricted}
use fluvius_py.Data.Negation.{reversed_names, unchanged_names, leaf_clause-negated}
use fluvius_py.Data.Chosen.{ReadsOnly, build_select-excludes}
use fluvius_py.Data.Manager.{default_query, query_of}
use fluvius_py.Data.Example.{Row, Clause, truth, sql, is_sql}

abbrev pub schema : Schema
schema = record {
  name = "user";
  attributes = "_id" ∷ "full_name" ∷ "secret" ∷ "owner" ∷ "public" ∷ "_deleted" ∷ [];
  primary_key = "_id";
  ts_index = none;
}

abbrev pub registry : Dict Schema
registry = ("user", schema) ∷ []

abbrev pub harry : Row
harry = ("_id", "u1") ∷ ("full_name", "Harry") ∷ ("owner", "me") ∷ ("public", "yes") ∷ []

abbrev conditions : Conditions
conditions = Conditions.condition P.both Conditions.no_conditions

abbrev answer : PolicyResponse
answer = record {
  allowed = true;
  restriction = to_query_statement (Condition.node conditions Conditions.no_conditions);
}

abbrev check : PolicyRequest → Result PolicyResponse
check req = ok answer

abbrev people : Manager
people = record Q.manager { policymgr = some check }

abbrev query_from : Result BackendQuery → BackendQuery
query_from (ok q) = q
query_from (raised e) = default_query

abbrev asked_for : BackendQuery
asked_for = query_from (prepare_query people (some "me") "user" none Q.page_two)

abbrev no_select : Select Clause
no_select = record {
  columns = [];
  join = none;
  where_ = [];
  limit = none;
  offset = none;
  order_by = [];
}

abbrev select_from : Result (Select Clause) → Select Clause
select_from (ok s) = s
select_from (raised e) = no_select

abbrev statement_from : Result (Statement Clause) → Statement Clause
statement_from (ok s) = s
statement_from (raised e) = Statement.delete "" []

abbrev selected : Select Clause
selected = select_from (build_select sql registry schema asked_for)

prepared : prepare_query people (some "me") "user" none Q.page_two ≡ ok asked_for
unfolding prepare_query lookup_query_resource get validate_fe_query authorize_by_policy checked
    construct_backend_query process_query_statement process member_expression operator_statement
    split from_parts field_expression composite_expression get_filter expression process_sort
    sort_each sort_parts split_dots process_select inverse put to_query_statement
prepared = refl

built : build_select sql registry schema asked_for ≡ ok selected
unfolding prepare_query lookup_query_resource get validate_fe_query authorize_by_policy checked
    construct_backend_query process_query_statement process member_expression operator_statement
    split from_parts field_expression composite_expression get_filter expression process_sort
    sort_each sort_parts split_dots process_select inverse put to_query_statement build_select
    select_columns build_join field partition where_clauses identifier_clauses build_expression
    gen_query composite_operator by_mode group_clause leaf_clause field_operator apply_operator
    deleted_clauses text_clauses sort_clauses
built = refl

harry_taken : takes sql truth selected.where_ harry ≡ true
unfolding prepare_query lookup_query_resource get validate_fe_query authorize_by_policy checked
    construct_backend_query process_query_statement process member_expression operator_statement
    split from_parts field_expression composite_expression get_filter expression process_sort
    sort_each sort_parts split_dots process_select inverse put to_query_statement build_select
    select_columns build_join field partition where_clauses identifier_clauses build_expression
    gen_query composite_operator by_mode group_clause leaf_clause field_operator apply_operator
    deleted_clauses text_clauses sort_clauses
harry_taken = refl

build_select-restricted_example :
    all_of (row_test sql truth registry schema harry) conditions ≡ true
unfolding get to_query_statement generate_restriction reconcile_policies reconcile_condition
    parse_metas collect_conditions reconcile_scope render
build_select-restricted_example =
    build_select-restricted sql truth registry schema people check "me" "user" none Q.page_two
      Q.user answer P.manager P.request P.tenant_policy [] (P.meta ∷ []) conditions asked_for
      selected harry is_sql refl refl refl refl refl refl refl refl P.both_well prepared built
      harry_taken

build_select-excludes_example :
    ReadsOnly schema selected.columns (chosen_names sql registry schema asked_for)
    × (all
          (λ (c : Column). not (str_eq c.name (or_default (get "secret" Q.user.fieldmap) "secret")))
          selected.columns
        ≡ true)
unfolding get prepare_query lookup_query_resource validate_fe_query authorize_by_policy checked
    construct_backend_query process_query_statement process member_expression operator_statement
    split from_parts field_expression composite_expression get_filter expression process_sort
    sort_each sort_parts split_dots process_select inverse put to_query_statement partition
build_select-excludes_example =
    build_select-excludes sql registry schema people (some "me") "user" none Q.page_two Q.user
      asked_for selected "secret" refl prepared built
      (refl, (refl, (refl, (refl, (refl, (refl, tt)))))) (refl, (refl, tt)) refl

abbrev mine : QueryExpression
mine = record { field = some "owner"; operator = "eq"; mode = "."; value = Value.text "me" }

abbrev not_public : QueryExpression
not_public = record { field = some "public"; operator = "eq"; mode = "!"; value = Value.text "yes" }

abbrev my_row : BackendQuery
my_row = record (query_of "u1" none) { scope = mine ∷ []; where_ = not_public ∷ [] }

abbrev changes : Value
changes = Value.object (Members.member "owner" (Value.text "you") Members.no_members)

abbrev my_select : Select Clause
my_select = select_from (build_select sql registry schema my_row)

abbrev my_update : Statement Clause
my_update = statement_from (build_update sql registry schema my_row changes)

abbrev my_delete : Statement Clause
my_delete = statement_from (build_delete sql registry schema my_row)

build_select-take_example :
    (takes sql truth my_select.where_ harry ≡ asks sql truth registry schema harry my_row)
    × Updates sql truth registry schema my_row harry my_update
    × Deletes sql truth registry schema my_row harry my_delete
unfolding build_select build_update build_delete build_values select_columns build_join field
    partition where_clauses identifier_clauses build_expression gen_query leaf_clause field_operator
    by_mode get apply_operator deleted_clauses text_clauses sort_clauses filled has_expressions
build_select-take_example =
    build_select-take sql truth registry schema my_row changes my_select my_update my_delete harry
      is_sql refl refl refl refl refl

-- Harry is public, so the negated condition leaves this row out.
not_taken : takes sql truth my_select.where_ harry ≡ false
unfolding build_select select_columns build_join field partition where_clauses identifier_clauses
    build_expression gen_query leaf_clause field_operator by_mode get apply_operator deleted_clauses
    text_clauses sort_clauses
not_taken = refl

abbrev clause_from : Result Clause → Clause
clause_from (ok c) = c
clause_from (raised e) = λ row. Truth.unknown

abbrev owned : Clause
owned = clause_from (leaf_clause sql registry schema "owner" "eq" "." (Value.text "me"))

abbrev not_owned : Clause
not_owned = clause_from (leaf_clause sql registry schema "owner" "eq" "!" (Value.text "me"))

leaf_clause-negated_example :
    ((any (str_eq "eq") reversed_names ≡ true)
      × (truth not_owned harry ≡ opposite_of (truth owned harry)))
    ⊎ ((any (str_eq "eq") unchanged_names ≡ true) × (not_owned ≡ owned))
unfolding leaf_clause field partition field_operator by_mode get apply_operator
leaf_clause-negated_example =
    leaf_clause-negated sql truth registry schema "owner" "eq" (Value.text "me") owned not_owned
      harry is_sql refl refl
