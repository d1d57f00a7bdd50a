-- ===== src/Data/Clauses.antt =====
-- data/data_driver/sqla/query.py: the clauses of a statement, made with SQLAlchemy's functions.
use fluvius_py.Common.{
  String, Bool, not, Option, none, some, List, [], ◌∷◌, ◌++◌, str_eq, if◌then◌else◌,
}
use fluvius_py.Common.Dict.{Dict}
use fluvius_py.Exec.{Failure, Result, ok, raised, and_then}
use fluvius_py.Query.Statements.{Value, Items, Members, QueryExpression, as_values}
use fluvius_py.Query.Manager.{BackendQuery}
use fluvius_py.Data.Columns.{
  Schema, Column, Operator, field_operator, by_mode, has_attribute, field, fields, bounds,
}

-- SQLAlchemy's functions that make clauses. Those that look at a value may raise.
pub record Sqlalchemy (Clause : Type 0) : Type 0 where
  pub compare : Operator → Column → Value → Result Clause
  pub between : Column → Value → Value → Result Clause
  pub and_ : List Clause → Clause
  pub or_ : List Clause → Clause
  pub not_ : Clause → Clause
  pub is_null : Column → Clause
  pub ts_match : List Column → String → Clause
  pub sorted : Column → String → Result Clause

module _ {Clause : Type 0} (sql : Sqlalchemy Clause) (registry : Dict Schema) where
  -- the function of `COMPOSITE_OPERATOR`
  unfoldable pub composite_operator : String → String → Result (List Clause → Clause)
  unfolding by_mode
  composite_operator =
      by_mode (("and", sql.and_) ∷ ("or", sql.or_) ∷ [])
        (("and", λ cs. sql.not_ (sql.and_ cs)) ∷ ("or", λ cs. sql.not_ (sql.or_ cs)) ∷ [])

  unfoldable pub apply_operator : Operator → Column → Value → Result Clause
  apply_operator Operator.between_op c value =
      and_then (bounds value) λ (low, high). sql.between c low high
  apply_operator Operator.gt c value = sql.compare Operator.gt c value
  apply_operator Operator.ge c value = sql.compare Operator.ge c value
  apply_operator Operator.eq c value = sql.compare Operator.eq c value
  apply_operator Operator.ne c value = sql.compare Operator.ne c value
  apply_operator Operator.lt c value = sql.compare Operator.lt c value
  apply_operator Operator.le c value = sql.compare Operator.le c value
  apply_operator Operator.in_op c value = sql.compare Operator.in_op c value
  apply_operator Operator.notin_op c value = sql.compare Operator.notin_op c value
  apply_operator Operator.contains_op c value = sql.compare Operator.contains_op c value
  apply_operator Operator.overlap_op c value = sql.compare Operator.overlap_op c value
  apply_operator Operator.ilike_op c value = sql.compare Operator.ilike_op c value

  -- the clause of an expression of a field
  unfoldable pub leaf_clause : Schema → String → String → String → Value → Result Clause
  leaf_clause schema name operator mode value =
      and_then (field registry schema name none)
        λ c. and_then (field_operator mode operator) λ op. apply_operator op c value

  -- the clause of a group, given those of its value
  unfoldable pub group_clause : String → String → Result (List Clause) → Result Clause
  group_clause operator mode inner =
      and_then inner
        λ subops. and_then (composite_operator mode operator) λ combine. ok (combine subops)

  abbrev pub expression_clause :
      Schema → Option String → String → String → Value → Result (List Clause) → Result Clause
  expression_clause schema none operator mode value inner = group_clause operator mode inner
  expression_clause schema (some name) operator mode value inner =
      if str_eq name ""
      then group_clause operator mode inner
      else leaf_clause schema name operator mode value

  abbrev pub single : Result Clause → Result (List Clause)
  single r = and_then r λ c. ok (c ∷ [])

  abbrev pub concat : Result (List Clause) → Result (List Clause) → Result (List Clause)
  concat first rest = and_then first λ cs. and_then rest λ ds. ok (cs ++ ds)

  module _ (schema : Schema) where
    -- `_gen_query` with `_iter_expression`; the members of a dict come as pairs, which have no field.
    unfoldable mutual
      pub gen_query : Value → Result (List Clause)
      gen_query (Value.query_expression name operator mode value) =
          single (expression_clause schema name operator mode value (gen_query value))
      gen_query (Value.list items) = gen_items items
      gen_query (Value.object Members.no_members) = ok []
      gen_query (Value.object (Members.member key value rest)) =
          raised (Failure.attribute_error "field")
      gen_query Value.null = raised (Failure.bad_request "E00.505")
      gen_query (Value.flag b) = raised (Failure.bad_request "E00.505")
      gen_query (Value.number n) = raised (Failure.bad_request "E00.505")
      gen_query (Value.text s) = raised (Failure.bad_request "E00.505")

      pub gen_items : Items → Result (List Clause)
      gen_items Items.no_items = ok []
      gen_items (Items.item v items) = concat (gen_query v) (gen_items items)

    -- `_build_expression` of a `QueryStatement`
    unfoldable pub build_expression : List QueryExpression → Result (List Clause)
    build_expression es = gen_items (as_values es)

    unfoldable pub identifier_clauses : Option String → Result (List Clause)
    identifier_clauses none = ok []
    identifier_clauses (some key) =
        if str_eq key ""
        then ok []
        else single (
            sql.compare Operator.eq
              (record { table = schema.name; name = schema.primary_key; label = none })
              (Value.text key))

    unfoldable pub deleted_clauses : Bool → Result (List Clause)
    deleted_clauses incl_deleted =
        if not (has_attribute schema "_deleted")
        then ok []
        else if incl_deleted
        then ok []
        else and_then (field registry schema "_deleted" none) λ c. ok (sql.is_null c ∷ [])

    unfoldable pub text_clauses : String → Result (List Clause)
    text_clauses text = if str_eq text "" then ok [] else elim schema.ts_index [
      | none ↦ raised (Failure.bad_request "E00.503")
      | some index ↦ and_then (fields registry schema index) λ cs. ok (sql.ts_match cs text ∷ [])
    ]

    -- `_where_clauses`
    unfoldable pub where_clauses : BackendQuery → Result (List Clause)
    where_clauses q = concat (identifier_clauses q.identifier) (
        concat (build_expression q.scope) (
          concat (build_expression q.where_)
            (concat (deleted_clauses q.incl_deleted) (text_clauses q.text))))

    unfoldable pub sort_clauses : List (String × String) → Result (List Clause)
    sort_clauses [] = ok []
    sort_clauses ((name, sort_type) ∷ sorts) = and_then (field registry schema name none) λ c.
        and_then (sql.sorted c sort_type) λ o. and_then (sort_clauses sorts) λ rest. ok (o ∷ rest)
