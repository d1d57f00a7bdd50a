-- ===== src/Data/Columns.antt =====
-- data/data_driver/base.py and data/data_driver/sqla/query.py: schemas, columns and the tables of
-- operators.
use Prim.Native.String.{[] as empty, ◌∷◌ as char_then}
use fluvius_py.Common.{String, Bool, Option, none, some, List, [], ◌∷◌, str_eq, any, if◌then◌else◌}
use fluvius_py.Common.Dict.{Dict, get}
use fluvius_py.Exec.{Failure, Result, ok, raised, and_then, require}
use fluvius_py.Query.Statements.{Value, Items, is_named}

-- A data schema: its attributes are the columns, in the order of the table.
pub record Schema : Type 0 where
  pub name : String
  pub attributes : List String
  pub primary_key : String
  pub ts_index : Option (List String)

pub record Column : Type 0 where
  pub table : String
  pub name : String
  pub label : Option String

-- The operators of SQLAlchemy that the tables name.
pub data Operator : Type 0 where
  gt ge eq ne lt le in_op notin_op contains_op overlap_op ilike_op between_op : Operator

abbrev pub plain_operators : Dict Operator
plain_operators =
    ("gt", Operator.gt)
    ∷ ("gte", Operator.ge)
    ∷ ("eq", Operator.eq)
    ∷ ("ne", Operator.ne)
    ∷ ("lt", Operator.lt)
    ∷ ("lte", Operator.le)
    ∷ ("in", Operator.in_op)
    ∷ ("cs", Operator.contains_op)
    ∷ ("ov", Operator.overlap_op)
    ∷ ("notin", Operator.notin_op)
    ∷ ("ilike", Operator.ilike_op)
    ∷ ("has", Operator.ilike_op)
    ∷ ("between", Operator.between_op)
    ∷ []

abbrev pub negated_operators : Dict Operator
negated_operators =
    ("gt", Operator.le)
    ∷ ("gte", Operator.lt)
    ∷ ("eq", Operator.ne)
    ∷ ("ne", Operator.eq)
    ∷ ("lte", Operator.gt)
    ∷ ("lt", Operator.ge)
    ∷ ("le", Operator.gt)
    ∷ ("notin", Operator.in_op)
    ∷ ("cs", Operator.contains_op)
    ∷ ("ov", Operator.overlap_op)
    ∷ ("in", Operator.notin_op)
    ∷ ("has", Operator.ilike_op)
    ∷ ("between", Operator.between_op)
    ∷ []

-- `TABLE[mode][operator]`
unfoldable pub by_mode : {A : Type 0} → Dict A → Dict A → String → String → Result A
by_mode plain negated mode operator =
    if str_eq mode "."
    then require (Failure.key_error operator) (get operator plain)
    else if str_eq mode "!"
    then require (Failure.key_error operator) (get operator negated)
    else raised (Failure.key_error mode)

unfoldable pub field_operator : String → String → Result Operator
unfolding by_mode
field_operator = by_mode plain_operators negated_operators

-- The registry of a driver's data schemas.
unfoldable pub lookup_data_schema : Dict Schema → String → Result Schema
lookup_data_schema registry name = require (Failure.bad_request "E00.111") (get name registry)

-- `s.partition(':')` where the separator is in `s`
unfoldable pub partition : String → Option (String × String)
partition empty = none
partition (char_then c s) =
    let rest = partition s in
    if str_eq (char_then c empty) ":"
    then some (empty, s)
    else elim rest [ none ↦ none | some (before, after) ↦ some (char_then c before, after) ]

abbrev pub has_attribute : Schema → String → Bool
has_attribute schema name = any (str_eq name) schema.attributes

-- `alias or no alias`
abbrev pub label_of : Option String → Option String
label_of alias = if is_named alias then alias else none

abbrev pub attribute : Failure → Schema → String → Option String → Result Column
attribute e schema name alias =
    if has_attribute schema name
    then ok (record { table = schema.name; name = name; label = label_of alias })
    else raised e

module _ (registry : Dict Schema) where
  -- `_field`: a name with a colon names another schema first.
  unfoldable pub field : Schema → String → Option String → Result Column
  field schema name alias = elim (partition name) [
    | none ↦ attribute (Failure.bad_request "E00.501") schema name alias
    | some (resource, rest) ↦
        and_then (lookup_data_schema registry resource)
          λ other. attribute (Failure.bad_request "E00.501") other rest alias
  ]

  unfoldable pub fields : Schema → List String → Result (List Column)
  fields schema [] = ok []
  fields schema (name ∷ names) =
      and_then (field schema name none) λ c. and_then (fields schema names) λ cs. ok (c ∷ cs)

abbrev or_null : Option String → Value
or_null none = Value.null
or_null (some s) = Value.text s

-- `vals[0], vals[1]`
unfoldable pub bounds : Value → Result (Value × Value)
bounds (Value.list (Items.item a (Items.item b rest))) = ok (a, b)
bounds (Value.list (Items.item a Items.no_items)) = raised Failure.index_error
bounds (Value.list Items.no_items) = raised Failure.index_error
bounds (Value.text empty) = raised Failure.index_error
bounds (Value.text (char_then c empty)) = raised Failure.index_error
bounds (Value.text (char_then c (char_then d s))) =
    ok (Value.text (char_then c empty), Value.text (char_then d empty))
bounds (Value.query_expression name operator mode value) = ok (or_null name, Value.text operator)
bounds (Value.object _) = raised (Failure.key_error "0")
bounds Value.null = raised Failure.type_error
bounds (Value.flag b) = raised Failure.type_error
bounds (Value.number n) = raised Failure.type_error
