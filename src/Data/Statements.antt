-- ===== src/Data/Statements.antt =====
-- data/data_driver/sqla/query.py: the statements of a query, an update, an insert and a delete.
use fluvius_py.Common.{
  String, true, false, not, zero, suc, Option, none, some, List, [], ◌∷◌, str_eq, any, filter,
  if◌then◌else◌,
}
use fluvius_py.Common.Int.{ℤ, pos, negsuc}
use fluvius_py.Common.Dict.{Dict, get}
use fluvius_py.Exec.{Failure, Result, ok, raised, and_then}
use fluvius_py.Query.Statements.{Value, Items, Members}
use fluvius_py.Query.Manager.{JoinStatement, BackendQuery}
use fluvius_py.Data.Columns.{Schema, Column, lookup_data_schema, attribute, field}
use fluvius_py.Data.Clauses.{Sqlalchemy, where_clauses, sort_clauses}

-- `select(...)` with the calls on it
pub record Select (Clause : Type 0) : Type 0 where
  pub columns : List Column
  pub join : Option (String × (Column × Column))
  pub where_ : List Clause
  pub limit : Option ℤ
  pub offset : Option ℤ
  pub order_by : List Clause

pub data Statement (Clause : Type 0) : Type 0 where
  select : String → Select Clause → Statement Clause
  update : String → List Clause → Option Value → Statement Clause
  delete : String → List Clause → Statement Clause
  insert : String → Option Value → Statement Clause
  upsert : String → Value → List String → Statement Clause

-- the truth of a number
abbrev pub unless_zero : ℤ → Option ℤ
unless_zero (pos zero) = none
unless_zero (pos (suc n)) = some (pos (suc n))
unless_zero (negsuc n) = some (negsuc n)

-- `_build_values`: values that are falsy are left out.
unfoldable pub build_values : Value → Result (Option Value)
build_values Value.null = ok none
build_values (Value.flag false) = ok none
build_values (Value.flag true) = raised (Failure.bad_request "E00.504")
build_values (Value.number zero) = ok none
build_values (Value.number (suc n)) = raised (Failure.bad_request "E00.504")
build_values (Value.text s) =
    if str_eq s "" then ok none else raised (Failure.bad_request "E00.504")
build_values (Value.object Members.no_members) = ok none
build_values (Value.object (Members.member key v rest)) =
    ok (some (Value.object (Members.member key v rest)))
build_values (Value.list Items.no_items) = ok none
build_values (Value.list (Items.item v items)) = ok (some (Value.list (Items.item v items)))
build_values (Value.query_expression name operator mode v) =
    ok (some (Value.query_expression name operator mode v))

module _ {Clause : Type 0} (sql : Sqlalchemy Clause) (registry : Dict Schema) where
  abbrev pub plain_column : Schema → String → Result Column
  plain_column schema name = attribute (Failure.attribute_error name) schema name none

  -- `_build_join` returns with the first statement.
  unfoldable pub build_join :
      Schema → List JoinStatement → Result (Option (String × (Column × Column)))
  build_join schema [] = ok none
  build_join schema (j ∷ joins) = and_then (lookup_data_schema registry j.foreign_table) λ ftable.
      and_then (plain_column schema j.local_field) λ local.
        and_then (plain_column ftable j.foreign_field)
          λ foreign. ok (some (ftable.name, (local, foreign)))

  abbrev pub included_names : Schema → List String → List String
  included_names schema [] = schema.attributes
  included_names schema (k ∷ ks) = k ∷ ks

  -- the columns of `include` that `exclude` does not name
  abbrev pub chosen_names : Schema → BackendQuery → List String
  chosen_names schema q =
      filter (λ k. not (any (str_eq k) q.exclude)) (included_names schema q.include)

  unfoldable pub select_columns : Schema → Dict String → List String → Result (List Column)
  select_columns schema alias [] = ok []
  select_columns schema alias (k ∷ ks) =
      and_then (field registry schema k (get k alias))
        λ c. and_then (select_columns schema alias ks) λ cs. ok (c ∷ cs)

  module _ (schema : Schema) (q : BackendQuery) where
    unfoldable pub build_select : Result (Select Clause)
    build_select = and_then (select_columns schema q.alias (chosen_names schema q)) λ columns.
        and_then (build_join schema q.join) λ join.
          and_then (where_clauses sql registry schema q) λ where_.
            and_then (sort_clauses sql registry schema q.sort) λ order_by. ok (record {
              columns = columns;
              join = join;
              where_ = where_;
              limit = unless_zero q.limit;
              offset = unless_zero q.offset;
              order_by = order_by;
            })

    unfoldable pub build_delete : Result (Statement Clause)
    build_delete =
        and_then (where_clauses sql registry schema q)
          λ where_. ok (Statement.delete schema.name where_)

    unfoldable pub build_update : Value → Result (Statement Clause)
    build_update values = and_then (where_clauses sql registry schema q) λ where_.
        and_then (build_values values) λ changes. ok (Statement.update schema.name where_ changes)

  unfoldable pub build_insert : Schema → Value → Result (Statement Clause)
  build_insert schema values =
      and_then (build_values values) λ changes. ok (Statement.insert schema.name changes)
