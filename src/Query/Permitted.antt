-- ===== src/Query/Permitted.antt =====
-- What the expressions of a client's query may name.
use fluvius_py.Common.{
  ◌≡◌, refl, sym, ap, subst, String, true, false, ◌&&◌, ◌≢◌, ◌⊎◌, inl, inr, Bool-cases, Option,
  none, some, List, [], ◌∷◌, ◌++◌, str_eq, any, or_default,
}
use fluvius_py.Exec.{Failure, Result, ok, raised, and_then_ok, ok_inj}
use fluvius_py.Query.Statements.{
  Value, Items, Members, QueryExpression, OperatorStatement, operator_statement, Filter, FilterMap,
  get_filter, expression, validated, with_filter, without_key_error, is_named, as_values,
  field_expression, composite_expression, member_expression,
}

-- data that came as JSON
unfoldable mutual
  pub IsJson : Value → Type 0
  IsJson Value.null = Unit
  IsJson (Value.flag b) = Unit
  IsJson (Value.number n) = Unit
  IsJson (Value.text s) = Unit
  IsJson (Value.list items) = AreJson items
  IsJson (Value.object members) = HaveJson members
  IsJson (Value.query_expression field operator mode value) = ⊥

  pub AreJson : Items → Type 0
  AreJson Items.no_items = Unit
  AreJson (Items.item v items) = IsJson v × AreJson items

  pub HaveJson : Members → Type 0
  HaveJson Members.no_members = Unit
  HaveJson (Members.member key v members) = IsJson v × HaveJson members

abbrev pub Filters : (Filter → Type 0) → FilterMap → Type 0
Filters Q [] = Unit
Filters Q ((key, filter) ∷ filters) = Q filter × Filters Q filters

module _ (Q : Filter → Type 0) where
  -- the expression that a filter of the kind `Q` makes of some value
  abbrev pub Leaf : QueryExpression → Type 0
  Leaf e =
      (filter : Filter) × Q filter
      × (e.field ≡ some filter.selector.0)
      × (e.operator ≡ filter.selector.1)
      × (given : Value) × (expression filter e.mode given ≡ ok e)

  unfoldable mutual
    -- Such an expression, or a group of these by `and` or `or`.
    pub AllowedValue : Value → Type 0
    AllowedValue (Value.list items) = AllowedItems items
    AllowedValue Value.null = ⊥
    AllowedValue (Value.flag b) = ⊥
    AllowedValue (Value.number n) = ⊥
    AllowedValue (Value.text s) = ⊥
    AllowedValue (Value.object _) = ⊥
    AllowedValue (Value.query_expression field operator mode value) =
        Leaf (record { field = field; operator = operator; mode = mode; value = value })
        ⊎ ((any (str_eq operator) ("and" ∷ "or" ∷ []) ≡ true)
            × (is_named field ≡ false)
            × AllowedValue value)

    pub AllowedItems : Items → Type 0
    AllowedItems Items.no_items = Unit
    AllowedItems (Items.item v items) = AllowedValue v × AllowedItems items

  abbrev pub Permitted : List QueryExpression → Type 0
  Permitted es = AllowedItems (as_values es)

  pub Permitted-append :
      (es fs : List QueryExpression) → Permitted es → Permitted fs → Permitted (es ++ fs)
  unfolding AllowedItems
  Permitted-append [] fs h k = k
  Permitted-append (e ∷ es) fs (h, hs) k = (h, Permitted-append es fs hs k)

  get_filter-kind :
      (field operator : String) (filters : FilterMap) {filter : Filter}
      → Filters Q filters
      → get_filter field operator filters ≡ some filter
      → Q filter
  unfolding get_filter
  get_filter-kind field operator [] h e = absurd (cc e)
  get_filter-kind field operator (((f, o), found) ∷ filters) (h, hs) e =
      elim (Bool-cases (str_eq f field && str_eq o operator)) [
        | inl same ↦ subst Q (cc (rw same at e)) h
        | inr other ↦ get_filter-kind field operator filters hs (rw other at e)
      ]

  without_key_error_ok : {A : Type 0} (r : Result A) {a : A} → without_key_error r ≡ ok a → r ≡ ok a
  without_key_error_ok (ok b) h = h
  without_key_error_ok (raised (Failure.key_error key)) h = absurd (cc h)
  without_key_error_ok (raised e) h = absurd (cc h)

  expression-selector :
      (filter : Filter) (mode : String) (given : Value) {e : QueryExpression}
      → expression filter mode given ≡ ok e
      → (e.field ≡ some filter.selector.0) × (e.operator ≡ filter.selector.1) × (e.mode ≡ mode)
  unfolding expression
  expression-selector filter mode given h =
      let (valid, done, made) = and_then_ok (validated filter.validator given) _ h in
      let same = sym (ok_inj made) in
      (
        ap (λ (x : QueryExpression). x.field) same,
        ap (λ (x : QueryExpression). x.operator) same,
        ap (λ (x : QueryExpression). x.mode) same,
      )

  of_filter :
      (filter : Filter) (mode : String) (given : Value) {e : QueryExpression}
      → Q filter
      → expression filter mode given ≡ ok e
      → Leaf e
  of_filter filter mode given {e} q h =
      let (field, operator, same) = expression-selector filter mode given h in
      (
        filter,
        q,
        field,
        operator,
        given,
        subst (λ m. expression filter m given ≡ ok e) (sym same) h,
      )

  -- an expression of a list that is permitted
  abbrev pub One : QueryExpression → Type 0
  One e = AllowedValue (Value.query_expression e.field e.operator e.mode e.value)

  field_expression-One :
      (filters : FilterMap) (op : OperatorStatement) (value : Value) {e : QueryExpression}
      → filters ≢ []
      → Filters Q filters
      → field_expression filters op value ≡ ok e
      → One e
  unfolding field_expression AllowedValue
  field_expression-One [] op value full h e = absurd (full refl)
  field_expression-One (f ∷ fs) op value full h e =
      by_filter (get_filter (or_default op.field "") op.operator (f ∷ fs))
        (λ filter. get_filter-kind (or_default op.field "") op.operator (f ∷ fs) h) e
    where
      by_filter :
          (o : Option Filter) {e : QueryExpression}
          → ((filter : Filter) → o ≡ some filter → Q filter)
          → with_filter o op.mode value ≡ ok e
          → One e
      by_filter none q e = absurd (cc e)
      by_filter (some filter) q e = inl (
          of_filter filter op.mode value (q filter refl)
            (without_key_error_ok (expression filter op.mode value) e))

  composite_expression-One :
      (op : OperatorStatement) (inner : Result (List QueryExpression)) {e : QueryExpression}
      → is_named op.field ≡ false
      → ((es : List QueryExpression) → inner ≡ ok es → Permitted es)
      → composite_expression op inner ≡ ok e
      → One e
  unfolding composite_expression AllowedValue
  composite_expression-One op inner {e} unnamed h made =
      elim (Bool-cases (any (str_eq op.operator) ("and" ∷ "or" ∷ []))) [
        | inr bad ↦ absurd (cc (rw bad at made))
        | inl good ↦
            let (es, done, same) = and_then_ok inner _ (rw good at made) in
            subst One (ok_inj same) (inr (good, unnamed, h es done))
      ]

  pub member-One :
      (filters : FilterMap) (key : String) (value : Value) (inner : Result (List QueryExpression))
      {e : QueryExpression}
      → filters ≢ []
      → Filters Q filters
      → ((es : List QueryExpression) → inner ≡ ok es → Permitted es)
      → member_expression filters key value inner ≡ ok e
      → One e
  unfolding member_expression
  member-One filters key value inner full kind h made =
      let (op, read, rest) = and_then_ok (operator_statement key) _ made in
      elim (Bool-cases (is_named op.field)) [
        | inl named ↦ field_expression-One filters op value full kind (rw named at rest)
        | inr unnamed ↦ composite_expression-One op inner unnamed h (rw unnamed at rest)
      ]
