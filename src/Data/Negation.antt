-- ===== src/Data/Negation.antt =====
-- What the negated table of operators makes of an expression of a field.
use fluvius_py.Common.{
  ◌≡◌, refl, sym, ◌∙◌, ap, subst, String, true, ◌⊎◌, inl, inr, Bool-cases, List, [], ◌∷◌, none,
  some, str_eq, eq_iff, any,
}
use fluvius_py.Common.Dict.{Dict, get}
use fluvius_py.Exec.{ok, and_then_ok, ok_inj, require_ok}
use fluvius_py.Query.Statements.{Value}
use fluvius_py.Data.Columns.{
  Schema, Column, Operator, plain_operators, negated_operators, by_mode, field_operator, field,
}
use fluvius_py.Data.Clauses.{Sqlalchemy, apply_operator, leaf_clause}
use fluvius_py.Data.Truth.{Truth, opposite_of, opposite, IsSql}

abbrev pub reversed_names : List String
reversed_names = "gt" ∷ "gte" ∷ "eq" ∷ "ne" ∷ "lt" ∷ "lte" ∷ "in" ∷ "notin" ∷ []

abbrev pub unchanged_names : List String
unchanged_names = "cs" ∷ "ov" ∷ "has" ∷ "between" ∷ []

some_inj : {A : Type 0} {a b : A} → some a ≡ some b → a ≡ b
some_inj h = cc h

-- The operator of the negated table for the same name.
abbrev Negates : String → Operator → Type 0
Negates name a =
    (b : Operator)
    → get name negated_operators ≡ some b
    → ((any (str_eq name) reversed_names ≡ true) × (opposite a ≡ some b))
      ⊎ ((any (str_eq name) unchanged_names ≡ true) × (b ≡ a))

abbrev Entries : (String → Operator → Type 0) → Dict Operator → Type 0
Entries P [] = Unit
Entries P ((k, a) ∷ d) = P k a × Entries P d

entry :
    (P : String → Operator → Type 0) (d : Dict Operator) (name : String) {a : Operator}
    → Entries P d
    → get name d ≡ some a
    → P name a
unfolding get
entry P [] name {a} all_ h = absurd (cc h)
entry P ((k, b) ∷ d) name {a} (this, those) h = elim (Bool-cases (str_eq k name)) [
  | inl same ↦
      subst (λ n. P n a) ((eq_iff k name).0 same) (subst (P k) (some_inj (rw same at h)) this)
  | inr other ↦ entry P d name those (rw other at h)
]

plain_operators-Negates : Entries Negates plain_operators
unfolding get
plain_operators-Negates = (
  λ b h. inl (refl, h),
  (
    λ b h. inl (refl, h),
    (
      λ b h. inl (refl, h),
      (
        λ b h. inl (refl, h),
        (
          λ b h. inl (refl, h),
          (
            λ b h. inl (refl, h),
            (
              λ b h. inl (refl, h),
              (
                λ b h. inr (refl, sym (some_inj h)),
                (
                  λ b h. inr (refl, sym (some_inj h)),
                  (
                    λ b h. inl (refl, h),
                    (
                      λ b h. absurd (cc h),
                      (
                        λ b h. inr (refl, sym (some_inj h)),
                        (λ b h. inr (refl, sym (some_inj h)), tt),
                      ),
                    ),
                  ),
                ),
              ),
            ),
          ),
        ),
      ),
    ),
  ),
)

module _ {Clause : Type 0} (sql : Sqlalchemy Clause) (registry : Dict Schema) where
  apply-compare :
      (a b : Operator) (c : Column) (v : Value)
      → opposite a ≡ some b
      → apply_operator sql registry a c v ≡ sql.compare a c v
  unfolding apply_operator
  apply-compare Operator.gt b c v h = refl
  apply-compare Operator.ge b c v h = refl
  apply-compare Operator.eq b c v h = refl
  apply-compare Operator.ne b c v h = refl
  apply-compare Operator.lt b c v h = refl
  apply-compare Operator.le b c v h = refl
  apply-compare Operator.in_op b c v h = refl
  apply-compare Operator.notin_op b c v h = refl
  apply-compare Operator.contains_op b c v h = refl
  apply-compare Operator.overlap_op b c v h = refl
  apply-compare Operator.ilike_op b c v h = refl
  apply-compare Operator.between_op b c v h = absurd (cc h)

opposite-opposite : (a b : Operator) → opposite a ≡ some b → opposite b ≡ some a
opposite-opposite Operator.gt b h = subst (λ x. opposite x ≡ some Operator.gt) (some_inj h) refl
opposite-opposite Operator.ge b h = subst (λ x. opposite x ≡ some Operator.ge) (some_inj h) refl
opposite-opposite Operator.eq b h = subst (λ x. opposite x ≡ some Operator.eq) (some_inj h) refl
opposite-opposite Operator.ne b h = subst (λ x. opposite x ≡ some Operator.ne) (some_inj h) refl
opposite-opposite Operator.lt b h = subst (λ x. opposite x ≡ some Operator.lt) (some_inj h) refl
opposite-opposite Operator.le b h = subst (λ x. opposite x ≡ some Operator.le) (some_inj h) refl
opposite-opposite Operator.in_op b h =
    subst (λ x. opposite x ≡ some Operator.in_op) (some_inj h) refl
opposite-opposite Operator.notin_op b h =
    subst (λ x. opposite x ≡ some Operator.notin_op) (some_inj h) refl
opposite-opposite Operator.contains_op b h = absurd (cc h)
opposite-opposite Operator.overlap_op b h = absurd (cc h)
opposite-opposite Operator.ilike_op b h = absurd (cc h)
opposite-opposite Operator.between_op b h = absurd (cc h)

operators_of :
    (name : String) {a b : Operator}
    → field_operator "." name ≡ ok a
    → field_operator "!" name ≡ ok b
    → ((any (str_eq name) reversed_names ≡ true) × (opposite a ≡ some b))
      ⊎ ((any (str_eq name) unchanged_names ≡ true) × (b ≡ a))
unfolding field_operator by_mode
operators_of name h k =
    entry Negates plain_operators name plain_operators-Negates (require_ok _ _ h) _
      (require_ok _ _ k)

-- The clauses of a field's expression and of the same with `!`, where both are made and the clauses mean
-- what SQL says. For `gt`, `gte`, `eq`, `ne`, `lt`, `lte`, `in` and `notin` the second says of every
-- row the opposite of the first. For `cs`, `ov`, `has` and `between`, the only other names, it is the
-- same clause.
pub leaf_clause-negated :
    {Clause Row : Type 0} (sql : Sqlalchemy Clause) (truth : Clause → Row → Truth)
    (registry : Dict Schema) (schema : Schema) (name operator : String) (v : Value) (x y : Clause)
    (row : Row)
    → IsSql sql truth
    → leaf_clause sql registry schema name operator "." v ≡ ok x
    → leaf_clause sql registry schema name operator "!" v ≡ ok y
    → ((any (str_eq operator) reversed_names ≡ true) × (truth y row ≡ opposite_of (truth x row)))
      ⊎ ((any (str_eq operator) unchanged_names ≡ true) × (y ≡ x))
unfolding leaf_clause
leaf_clause-negated sql truth registry schema name operator v x y row laws h k =
    let (c, at, more) = and_then_ok (field registry schema name none) _ h in
    let (a, plain, made) = and_then_ok (field_operator "." operator) _ more in
    let (d, also, rest) = and_then_ok (field registry schema name none) _ k in
    let (b, negated, built) = and_then_ok (field_operator "!" operator) _ rest in
    let same : d ≡ c = ok_inj (sym also ∙ at) in
    let built_here : apply_operator sql registry b c v ≡ ok y =
      ap (λ z. apply_operator sql registry b z v) (sym same) ∙ built in
    elim (operators_of operator plain negated) [
      | inl (known, turned) ↦ inl (
        known,
        laws.comparison a b c v x y row turned
            (sym (apply-compare sql registry a b c v turned) ∙ made)
            (sym (apply-compare sql registry b a c v (opposite-opposite a b turned)) ∙ built_here),
      )
      | inr (known, alike) ↦ inr (
        known,
        ok_inj (sym built_here ∙ ap (λ z. apply_operator sql registry z c v) alike ∙ made),
      )
    ]
