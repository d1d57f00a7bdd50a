-- ===== src/Query/Statements.antt =====
-- data/query.py: query statements and how they become expressions.
use Prim.Native.Char.{Char}
use Prim.Native.String.{[] as empty, ◌∷◌ as char_then}
use fluvius_py.Common.{
  ℕ, zero, suc, String, Bool, true, false, not, ◌&&◌, ◌||◌, Option, none, some, List, [], ◌∷◌, ◌++◌,
  str_eq, any, or_default, if◌then◌else◌,
}
use fluvius_py.Exec.{Failure, Result, ok, raised, and_then}

mutual
  -- a value of a query: JSON, or an expression that the application has made
  pub data Value : Type 0 where
    null : Value
    flag : Bool → Value
    number : ℕ → Value
    text : String → Value
    list : Items → Value
    object : Members → Value
    query_expression : Option String → String → String → Value → Value

  pub data Items : Type 0 where
    no_items : Items
    item : Value → Items → Items

  pub data Members : Type 0 where
    no_members : Members
    member : String → Value → Members → Members

-- `QueryExpression`
pub record QueryExpression : Type 0 where
  pub field : Option String
  pub operator : String
  pub mode : String
  pub value : Value

pub record OperatorStatement : Type 0 where
  pub field : Option String
  pub operator : String
  pub mode : String

-- `RX_PARAM_SPLIT`, and what `split` with it gives: the first part, and each separator with the part
-- after it
abbrev pub is_separator : Char → Bool
is_separator c = str_eq (char_then c empty) "." || str_eq (char_then c empty) "!"

abbrev pub Parts : Type 0
Parts = String × List (String × String)

unfoldable pub split : String → Parts
split empty = (empty, [])
split (char_then c s) =
    let (part, parts) = split s in
    if is_separator c then (empty, (char_then c empty, part) ∷ parts) else (char_then c part, parts)

-- `name or None`
abbrev pub or_none : String → Option String
or_none name = if str_eq name "" then none else some name

abbrev pub or_else : String → String → String
or_else name default = if str_eq name "" then default else name

unfoldable pub from_parts : String → Parts → Result OperatorStatement
from_parts key (part, []) = ok (record { field = some key; operator = "eq"; mode = "." })
from_parts key (part, (mode, operator) ∷ []) =
    ok (record { field = or_none part; operator = or_else operator "eq"; mode = mode })
from_parts key (part, p ∷ q ∷ parts) = raised (Failure.value_error "unpack")

unfoldable pub operator_statement : String → Result OperatorStatement
operator_statement key = from_parts key (split key)

-- `Filter`, as far as expressions read it
pub record Filter : Type 0 where
  pub selector : String × String
  pub validator : Option (Value → Result Value)

abbrev pub FilterMap : Type 0
FilterMap = List ((String × String) × Filter)

unfoldable pub get_filter : String → String → FilterMap → Option Filter
get_filter field operator [] = none
get_filter field operator (((f, o), filter) ∷ filters) =
    let rest = get_filter field operator filters in
    if str_eq f field && str_eq o operator then some filter else rest

abbrev pub validated : Option (Value → Result Value) → Value → Result Value
validated none value = ok value
validated (some validator) value = validator value

unfoldable pub expression : Filter → String → Value → Result QueryExpression
expression filter mode value = and_then (validated filter.validator value) λ valid. ok (record {
  field = some filter.selector.0;
  operator = filter.selector.1;
  mode = mode;
  value = valid;
})

-- `except KeyError`
abbrev pub without_key_error : {A : Type 0} → Result A → Result A
without_key_error (ok a) = ok a
without_key_error (raised (Failure.key_error key)) = raised (Failure.bad_request "E00.302")
without_key_error (raised e) = raised e

abbrev pub is_named : Option String → Bool
is_named none = false
is_named (some name) = not (str_eq name "")

abbrev pub as_values : List QueryExpression → Items
as_values [] = Items.no_items
as_values (e ∷ es) =
    Items.item (Value.query_expression e.field e.operator e.mode e.value) (as_values es)

abbrev pub with_filter : Option Filter → String → Value → Result QueryExpression
with_filter none mode value = raised (Failure.bad_request "E00.302")
with_filter (some filter) mode value = without_key_error (expression filter mode value)

-- An expression whose field has a filter: without a table of filters, or with an empty one, all fields
-- are taken as they are.
unfoldable pub field_expression : FilterMap → OperatorStatement → Value → Result QueryExpression
field_expression [] op value =
    ok (record { field = op.field; operator = op.operator; mode = op.mode; value = value })
field_expression (f ∷ fs) op value =
    with_filter (get_filter (or_default op.field "") op.operator (f ∷ fs)) op.mode value

-- An expression of an operator alone, over the expressions of its value.
unfoldable pub composite_expression :
    OperatorStatement → Result (List QueryExpression) → Result QueryExpression
composite_expression op inner =
    if not (any (str_eq op.operator) ("and" ∷ "or" ∷ []))
    then raised Failure.assertion_error
    else and_then inner λ es. ok (record {
      field = op.field;
      operator = op.operator;
      mode = op.mode;
      value = Value.list (as_values es);
    })

abbrev pub both :
    Result QueryExpression → Result (List QueryExpression) → Result (List QueryExpression)
both first rest = and_then first λ e. and_then rest λ es. ok (e ∷ es)

abbrev pub append :
    Result (List QueryExpression) → Result (List QueryExpression) → Result (List QueryExpression)
append first rest = and_then first λ es. and_then rest λ fs. ok (es ++ fs)

-- the expression of one member, given the expressions of its value read as statements
unfoldable pub member_expression :
    FilterMap → String → Value → Result (List QueryExpression) → Result QueryExpression
member_expression filters key value inner = and_then (operator_statement key) λ op.
    if is_named op.field then field_expression filters op value else composite_expression op inner

module _ (filters : FilterMap) where
  -- `_process`: falsy statements are left out, lists are flattened, and errors come in order.
  unfoldable mutual
    pub process : Value → Result (List QueryExpression)
    process Value.null = ok []
    process (Value.flag false) = ok []
    process (Value.flag true) = raised (Failure.value_error "statement")
    process (Value.number zero) = ok []
    process (Value.number (suc n)) = raised (Failure.value_error "statement")
    process (Value.text s) = if str_eq s "" then ok [] else raised (Failure.value_error "statement")
    process (Value.list items) = process_items items
    process (Value.object members) = process_members members
    process (Value.query_expression field operator mode value) =
        ok (record { field = field; operator = operator; mode = mode; value = value } ∷ [])

    pub process_items : Items → Result (List QueryExpression)
    process_items Items.no_items = ok []
    process_items (Items.item v items) = append (process v) (process_items items)

    pub process_members : Members → Result (List QueryExpression)
    process_members Members.no_members = ok []
    process_members (Members.member key value members) =
        both (member_expression filters key value (process value)) (process_members members)

  unfoldable pub process_query_statement : List Value → Result (List QueryExpression)
  process_query_statement [] = ok []
  process_query_statement (v ∷ vs) = append (process v) (process_query_statement vs)
