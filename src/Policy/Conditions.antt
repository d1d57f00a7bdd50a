-- ===== src/Policy/Conditions.antt =====
-- casbin/datadef.py: the conditions of policies, and the query statements that they become.
use Prim.Native.String.{◌∷◌ as char_then, ◌++◌ as str_append}
use fluvius_py.Common.{String, Bool, true, false}
use fluvius_py.Exec.{Result, ok, and_then}
use fluvius_py.Query.Statements.{Value, Items, Members}

mutual
  -- `ConditionLeaf` and `ConditionNode`, with its ALL and its ANY; a list that is not given is empty
  pub data Condition : Type 0 where
    leaf : String → String → Value → Condition
    node : Conditions → Conditions → Condition

  pub data Conditions : Type 0 where
    no_conditions : Conditions
    condition : Condition → Conditions → Conditions

-- `f"{field}.{op}"`
abbrev pub leaf_key : String → String → String
leaf_key field op = str_append field (char_then "." op)

abbrev pub has_conditions : Conditions → Bool
has_conditions Conditions.no_conditions = false
has_conditions (Conditions.condition c cs) = true

abbrev pub one_member : String → Value → Value
one_member key value = Value.object (Members.member key value Members.no_members)

unfoldable mutual
  pub to_query_statement : Condition → Value
  to_query_statement (Condition.leaf field op value) = one_member (leaf_key field op) value
  to_query_statement (Condition.node (Conditions.condition c cs) any) =
      one_member ".and" (Value.list (Items.item (to_query_statement c) (to_items cs)))
  to_query_statement (Condition.node Conditions.no_conditions (Conditions.condition c cs)) =
      one_member ".or" (Value.list (Items.item (to_query_statement c) (to_items cs)))
  to_query_statement (Condition.node Conditions.no_conditions Conditions.no_conditions) =
      Value.object Members.no_members

  pub to_items : Conditions → Items
  to_items Conditions.no_conditions = Items.no_items
  to_items (Conditions.condition c cs) = Items.item (to_query_statement c) (to_items cs)

-- `_render_node` and `_render_leaf`, for a `_render_value` in a context
module _ (render_value : Value → Result Value) where
  unfoldable mutual
    pub render : Condition → Result Condition
    render (Condition.leaf field op value) =
        and_then (render_value value) λ rendered. ok (Condition.leaf field op rendered)
    render (Condition.node all any) =
        and_then (render_all all)
          λ both. and_then (render_all any) λ some_. ok (Condition.node both some_)

    pub render_all : Conditions → Result Conditions
    render_all Conditions.no_conditions = ok Conditions.no_conditions
    render_all (Conditions.condition c cs) =
        and_then (render c)
          λ first. and_then (render_all cs) λ rest. ok (Conditions.condition first rest)
