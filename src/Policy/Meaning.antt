-- ===== src/Policy/Meaning.antt =====
-- What the conditions of policies mean as conditions of a query.
use fluvius_py.Common.{
  ◌≡◌, refl, sym, ◌∙◌, String, Bool, true, false, ◌&&◌, ◌||◌, not, none, some, List, [], ◌∷◌,
  str_eq, or_default, if◌then◌else◌,
}
use fluvius_py.Exec.{ok}
use fluvius_py.Query.Statements.{
  Value, Items, QueryExpression, is_named, operator_statement, split, from_parts, as_values,
  field_expression, composite_expression, member_expression, process, process_items,
}
use fluvius_py.Query.Operators.{IsPlain, operator_statement-append}
use fluvius_py.Policy.Conditions.{
  Condition, Conditions, has_conditions, to_query_statement, to_items,
}

-- A test of a row for one field, operator and value gives each condition its meaning.
module _ (test : String → String → Value → Bool) where
  unfoldable mutual
    pub meaning : Condition → Bool
    meaning (Condition.leaf field op value) = test field op value
    meaning (Condition.node all some_) = all_of all && (not (has_conditions some_) || some_of some_)

    pub all_of : Conditions → Bool
    all_of Conditions.no_conditions = true
    all_of (Conditions.condition c cs) = meaning c && all_of cs

    pub some_of : Conditions → Bool
    some_of Conditions.no_conditions = false
    some_of (Conditions.condition c cs) = meaning c || some_of cs

  unfoldable mutual
    -- The same for expressions: those of a field, and the groups.
    pub holds : Value → Bool
    holds (Value.query_expression field operator mode value) =
        let each = all_hold value in
        let one = any_holds value in
        if is_named field
        then test (or_default field "") operator value
        else if str_eq operator "or"
        then one
        else each
    holds Value.null = false
    holds (Value.flag b) = false
    holds (Value.number n) = false
    holds (Value.text s) = false
    holds (Value.list items) = false
    holds (Value.object _) = false

    pub all_hold : Value → Bool
    all_hold (Value.list items) = all_items items
    all_hold (Value.query_expression field operator mode value) = false
    all_hold Value.null = false
    all_hold (Value.flag b) = false
    all_hold (Value.number n) = false
    all_hold (Value.text s) = false
    all_hold (Value.object _) = false

    pub any_holds : Value → Bool
    any_holds (Value.list items) = any_item items
    any_holds (Value.query_expression field operator mode value) = false
    any_holds Value.null = false
    any_holds (Value.flag b) = false
    any_holds (Value.number n) = false
    any_holds (Value.text s) = false
    any_holds (Value.object _) = false

    pub all_items : Items → Bool
    all_items Items.no_items = true
    all_items (Items.item v items) = holds v && all_items items

    pub any_item : Items → Bool
    any_item Items.no_items = false
    any_item (Items.item v items) = holds v || any_item items

  abbrev pub all_expressions : List QueryExpression → Bool
  all_expressions es = all_items (as_values es)

-- A condition that is a leaf with a field and an operator that a key can hold, or a node with an ALL or
-- an ANY that is not empty, and not both.
unfoldable mutual
  pub IsWellFormed : Condition → Type 0
  IsWellFormed (Condition.leaf field op value) =
      IsPlain field × (str_eq field "" ≡ false) × IsPlain op × (str_eq op "" ≡ false)
  IsWellFormed (Condition.node all some_) =
      (has_conditions all ≡ not (has_conditions some_)) × AreWellFormed all × AreWellFormed some_

  pub AreWellFormed : Conditions → Type 0
  AreWellFormed Conditions.no_conditions = Unit
  AreWellFormed (Conditions.condition c cs) = IsWellFormed c × AreWellFormed cs

-- Expressions without a negation, whose groups have parts.
abbrev pub some_items : Items → Bool
some_items Items.no_items = false
some_items (Items.item v items) = true

unfoldable mutual
  pub positive : Value → Bool
  positive (Value.query_expression name operator mode value) =
      let parts = positive_parts value in str_eq mode "." && (is_named name || parts)
  positive Value.null = false
  positive (Value.flag b) = false
  positive (Value.number n) = false
  positive (Value.text s) = false
  positive (Value.list items) = false
  positive (Value.object _) = false

  pub positive_parts : Value → Bool
  positive_parts (Value.list items) = some_items items && all_positive items
  positive_parts (Value.query_expression name operator mode value) = false
  positive_parts Value.null = false
  positive_parts (Value.flag b) = false
  positive_parts (Value.number n) = false
  positive_parts (Value.text s) = false
  positive_parts (Value.object _) = false

  pub all_positive : Items → Bool
  all_positive Items.no_items = true
  all_positive (Items.item v items) = positive v && all_positive items

abbrev expression_value : QueryExpression → Value
expression_value e = Value.query_expression e.field e.operator e.mode e.value

module _ (test : String → String → Value → Bool) where
  leaf_made :
      (field op : String) (value : Value)
      → IsPlain field
      → str_eq field "" ≡ false
      → IsPlain op
      → str_eq op "" ≡ false
      → process [] (to_query_statement (Condition.leaf field op value))
        ≡ ok (record { field = some field; operator = op; mode = "."; value = value } ∷ [])
  unfolding process to_query_statement member_expression field_expression
  leaf_made field op value plain named opened given =
      rw (operator_statement-append (some field) "." op plain (rw named refl) refl opened given)
        (rw named refl)

  abbrev One : Condition → Type 0
  One c =
      (e : QueryExpression) × (process [] (to_query_statement c) ≡ ok (e ∷ []))
      × (holds test (expression_value e) ≡ meaning test c)
      × (positive (expression_value e) ≡ true)

  abbrev Many : Conditions → Type 0
  Many cs =
      (es : List QueryExpression) × (process_items [] (to_items cs) ≡ ok es)
      × (all_items test (as_values es) ≡ all_of test cs)
      × (any_item test (as_values es) ≡ some_of test cs)
      × (some_items (as_values es) ≡ has_conditions cs)
      × (all_positive (as_values es) ≡ true)

  pub and_true : (b : Bool) → b ≡ b && true
  and_true true = refl
  and_true false = refl

  group_all :
      (c : Condition) (cs : Conditions)
      → Many (Conditions.condition c cs)
      → One (Condition.node (Conditions.condition c cs) Conditions.no_conditions)
  unfolding to_query_statement process member_expression operator_statement split from_parts
      composite_expression holds meaning positive
  group_all c cs (es, done, every, one, some_, each) = (
    record { field = none; operator = "and"; mode = "."; value = Value.list (as_values es) },
    rw done refl,
    every ∙ and_true _,
    rw (some_, each) refl,
  )

  group_any :
      (c : Condition) (cs : Conditions)
      → Many (Conditions.condition c cs)
      → One (Condition.node Conditions.no_conditions (Conditions.condition c cs))
  unfolding to_query_statement process member_expression operator_statement split from_parts
      composite_expression holds meaning positive
  group_any c cs (es, done, every, one, some_, each) = (
    record { field = none; operator = "or"; mode = "."; value = Value.list (as_values es) },
    rw done refl,
    one,
    rw (some_, each) refl,
  )

  mutual
    unfolding to_query_statement process meaning holds IsWellFormed positive

    condition-One : (c : Condition) → IsWellFormed c → One c
    condition-One (Condition.leaf field op value) (plain, named, opened, given) = (
      record { field = some field; operator = op; mode = "."; value = value },
      leaf_made field op value plain named opened given,
      rw named refl,
      rw named refl,
    )
    condition-One (Condition.node (Conditions.condition c cs) Conditions.no_conditions)
          (one, each, rest) =
        group_all c cs (conditions-Many (Conditions.condition c cs) each)
    condition-One (Condition.node Conditions.no_conditions (Conditions.condition c cs))
          (one, rest, each) =
        group_any c cs (conditions-Many (Conditions.condition c cs) each)
    condition-One (Condition.node Conditions.no_conditions Conditions.no_conditions) (one, h, k) =
        absurd (cc one)
    condition-One (Condition.node (Conditions.condition c cs) (Conditions.condition d ds))
          (one, h, k) =
        absurd (cc one)

    conditions-Many : (cs : Conditions) → AreWellFormed cs → Many cs
    conditions-Many Conditions.no_conditions h = ([], refl, refl, refl, refl, refl)
    conditions-Many (Conditions.condition c cs) (h, hs) =
        let (e, made, same, plain) = condition-One c h in
        let (es, done, every, one, some_, each) = conditions-Many cs hs in
        (
          e ∷ es,
          rw (made, done) refl,
          rw (same, every) refl,
          rw (same, one) refl,
          refl,
          rw (plain, each) refl,
        )

-- A well-formed condition becomes a query statement that the data layer's query accepts without a
-- table of filters, as one expression, and for every meaning of the fields this expression holds
-- of a row where the condition does.
pub to_query_statement-meaning :
    (test : String → String → Value → Bool) (c : Condition)
    → IsWellFormed c
    → (es : List QueryExpression) × (process [] (to_query_statement c) ≡ ok es)
      × (all_expressions test es ≡ meaning test c)
unfolding holds
to_query_statement-meaning test c h =
    let (e, made, same, plain) = condition-One test c h in
    (e ∷ [], made, sym (and_true test (holds test (expression_value e))) ∙ same)

-- the expressions of a condition have no negation
pub to_query_statement-positive :
    (c : Condition)
    → IsWellFormed c
    → (es : List QueryExpression) × (process [] (to_query_statement c) ≡ ok es)
      × (all_positive (as_values es) ≡ true)
unfolding positive
to_query_statement-positive c h =
    let (e, made, same, plain) = condition-One (λ field op value. true) c h in
    (e ∷ [], made, rw plain refl)
