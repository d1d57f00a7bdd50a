-- ===== src/Data/Positive.antt =====
-- What expressions without a negation say.
use fluvius_py.Common.{
  ◌≡◌, refl, ◌∙◌, String, Bool, true, ◌||◌, inl, inr, Bool-cases, List, [], ◌∷◌, none, some, str_eq,
  eq_iff, if◌then◌else◌,
}
use fluvius_py.Query.Statements.{Value, Items, is_named}
use fluvius_py.Policy.Meaning.{
  holds, all_hold, any_holds, all_items, any_item, positive, positive_parts, all_positive,
  some_items,
}
use fluvius_py.Data.Truth.{
  Truth, every_of, some_of, taken, taken-both_of, taken-either_of, group_says, each_says, items_say,
}
use fluvius_py.Data.Filled.{has_expressions, have_expressions, filled, all_filled, and_parts}

-- Expressions without a negation say what they hold.
module _ (leaf : String → String → String → Value → Truth) where
  abbrev pub plain_test : String → String → Value → Bool
  plain_test name operator value = taken (leaf name operator "." value)

  abbrev Says : Value → Type 0
  Says v = (t : Truth) × (each_says leaf v ≡ t ∷ []) × (taken t ≡ holds plain_test v)

  abbrev Say : Items → Type 0
  Say items =
      (taken (every_of (items_say leaf items)) ≡ all_items plain_test items)
      × (taken (some_of (items_say leaf items)) ≡ any_item plain_test items)

  group_taken :
      (operator mode : String) (parts : List Truth) {every one : Bool}
      → mode ≡ "."
      → taken (every_of parts) ≡ every
      → taken (some_of parts) ≡ one
      → taken (group_says leaf operator mode parts) ≡ (if str_eq operator "or" then one else every)
  group_taken operator mode parts dot all_ any_ = elim (Bool-cases (str_eq operator "or")) [
    | inl disj ↦ rw (dot, disj) any_
    | inr conj ↦ rw (dot, conj) all_
  ]

  mutual
    unfolding positive each_says holds

    positive-Says : (v : Value) → positive v ≡ true → Says v
    positive-Says (Value.query_expression none operator mode value) h =
        let (dot, parts) = and_parts (str_eq mode ".") (positive_parts value) h in
        let (every, one) = parts-Say value parts in
        (
          group_says leaf operator mode (each_says leaf value),
          refl,
          group_taken operator mode (each_says leaf value) ((eq_iff mode ".").0 dot) every one,
        )
    positive-Says (Value.query_expression (some name) operator mode value) h =
        let (dot, rest) =
          and_parts (str_eq mode ".") (is_named (some name) || positive_parts value) h in
        let mode_is = (eq_iff mode ".").0 dot in
        elim (Bool-cases (str_eq name "")) [
          | inl unnamed ↦
              let (every, one) = parts-Say value (rw unnamed at rest) in
              (
                group_says leaf operator mode (each_says leaf value),
                rw unnamed refl,
                rw unnamed (group_taken operator mode (each_says leaf value) mode_is every one),
              )
          | inr named ↦ (leaf name operator mode value, rw named refl, rw (named, mode_is) refl)
        ]
    positive-Says Value.null h = absurd (cc h)
    positive-Says (Value.flag b) h = absurd (cc h)
    positive-Says (Value.number n) h = absurd (cc h)
    positive-Says (Value.text s) h = absurd (cc h)
    positive-Says (Value.list items) h = absurd (cc h)
    positive-Says (Value.object _) h = absurd (cc h)

    parts-Say :
        (v : Value)
        → positive_parts v ≡ true
        → (taken (every_of (each_says leaf v)) ≡ all_hold plain_test v)
          × (taken (some_of (each_says leaf v)) ≡ any_holds plain_test v)
    parts-Say (Value.list items) h =
        all_positive-Say items (and_parts (some_items items) (all_positive items) h).1
    parts-Say (Value.query_expression name operator mode value) h = absurd (cc h)
    parts-Say Value.null h = absurd (cc h)
    parts-Say (Value.flag b) h = absurd (cc h)
    parts-Say (Value.number n) h = absurd (cc h)
    parts-Say (Value.text s) h = absurd (cc h)
    parts-Say (Value.object _) h = absurd (cc h)

    pub all_positive-Say : (items : Items) → all_positive items ≡ true → Say items
    all_positive-Say Items.no_items h = (refl, refl)
    all_positive-Say (Items.item v items) h =
        let (this, those) = and_parts (positive v) (all_positive items) h in
        let (t, only, same) = positive-Says v this in
        let (every, one) = all_positive-Say items those in
        (
          rw only (taken-both_of t (every_of (items_say leaf items)) ∙ rw (same, every) refl),
          rw only (taken-either_of t (some_of (items_say leaf items)) ∙ rw (same, one) refl),
        )

positive-has_expressions : (v : Value) → positive v ≡ true → has_expressions v ≡ true
unfolding positive has_expressions
positive-has_expressions (Value.query_expression name operator mode value) h = refl
positive-has_expressions Value.null h = absurd (cc h)
positive-has_expressions (Value.flag b) h = absurd (cc h)
positive-has_expressions (Value.number n) h = absurd (cc h)
positive-has_expressions (Value.text s) h = absurd (cc h)
positive-has_expressions (Value.list items) h = absurd (cc h)
positive-has_expressions (Value.object _) h = absurd (cc h)

some_positive :
    (xs : Items) → some_items xs ≡ true → all_positive xs ≡ true → have_expressions xs ≡ true
unfolding positive has_expressions
some_positive Items.no_items h k = absurd (cc h)
some_positive (Items.item v xs) h k =
    rw (positive-has_expressions v (and_parts (positive v) (all_positive xs) k).0) refl

-- They have no empty groups.
mutual
  unfolding positive filled has_expressions

  positive-filled : (v : Value) → positive v ≡ true → filled v ≡ true
  positive-filled (Value.query_expression name operator mode value) h =
      let (dot, rest) = and_parts (str_eq mode ".") (is_named name || positive_parts value) h in
      elim (Bool-cases (is_named name)) [
        | inl named ↦ rw named refl
        | inr unnamed ↦
            let (full, some_) = parts-filled value (rw unnamed at rest) in
            rw (unnamed, full, some_) refl
      ]
  positive-filled Value.null h = absurd (cc h)
  positive-filled (Value.flag b) h = absurd (cc h)
  positive-filled (Value.number n) h = absurd (cc h)
  positive-filled (Value.text s) h = absurd (cc h)
  positive-filled (Value.list items) h = absurd (cc h)
  positive-filled (Value.object _) h = absurd (cc h)

  parts-filled :
      (v : Value) → positive_parts v ≡ true → (filled v ≡ true) × (has_expressions v ≡ true)
  parts-filled (Value.list items) h =
      let (some_, each) = and_parts (some_items items) (all_positive items) h in
      (all_positive-filled items each, some_positive items some_ each)
  parts-filled (Value.query_expression name operator mode value) h = absurd (cc h)
  parts-filled Value.null h = absurd (cc h)
  parts-filled (Value.flag b) h = absurd (cc h)
  parts-filled (Value.number n) h = absurd (cc h)
  parts-filled (Value.text s) h = absurd (cc h)
  parts-filled (Value.object _) h = absurd (cc h)

  pub all_positive-filled : (items : Items) → all_positive items ≡ true → all_filled items ≡ true
  all_positive-filled Items.no_items h = refl
  all_positive-filled (Items.item v items) h =
      let (this, those) = and_parts (positive v) (all_positive items) h in
      rw (positive-filled v this, all_positive-filled items those) refl
