-- ===== src/Data/Meaning.antt =====
-- The clauses of an expression say what the expression says.
use fluvius_py.Common.{
  ◌≡◌, ◌≢◌, refl, sym, ◌∙◌, ap, String, true, ◌⊎◌, inl, inr, Bool-cases, List, [], ◌∷◌, ◌++◌, none,
  some, str_eq, eq_iff,
}
use fluvius_py.Common.Dict.{Dict, get}
use fluvius_py.Exec.{Result, ok, raised, and_then_ok, ok_inj, require_ok}
use fluvius_py.Query.Statements.{Value, Items, Members}
use fluvius_py.Data.Columns.{Schema, by_mode}
use fluvius_py.Data.Clauses.{
  Sqlalchemy, composite_operator, leaf_clause, group_clause, expression_clause, gen_query,
  gen_items,
}
use fluvius_py.Data.Truth.{Truth, opposite_of, truths, IsSql, group_says, each_says, items_say}
use fluvius_py.Data.Filled.{
  has_expressions, have_expressions, filled, all_filled, and_parts, append_unless_empty,
}

-- a table of `by_mode` that has the operator
pub by_mode_ok :
    {A : Type 0} (plain negated : Dict A) (mode operator : String) {a : A}
    → by_mode plain negated mode operator ≡ ok a
    → ((mode ≡ ".") × (get operator plain ≡ some a))
      ⊎ ((mode ≡ "!") × (get operator negated ≡ some a))
unfolding by_mode
by_mode_ok plain negated mode operator h = elim (Bool-cases (str_eq mode ".")) [
  | inl dot ↦ inl ((eq_iff mode ".").0 dot, require_ok _ _ (rw dot at h))
  | inr other ↦ elim (Bool-cases (str_eq mode "!")) [
    | inl bang ↦ inr ((eq_iff mode "!").0 bang, require_ok _ _ (rw (other, bang) at h))
    | inr neither ↦ absurd (cc (rw (other, neither) at h))
  ]
]

get_two :
    {A : Type 0} (x y a : A) (operator : String)
    → get operator (("and", x) ∷ ("or", y) ∷ []) ≡ some a
    → ((operator ≡ "and") × (a ≡ x)) ⊎ ((operator ≡ "or") × (a ≡ y))
unfolding get
get_two x y a operator h = elim (Bool-cases (str_eq "and" operator)) [
  | inl conj ↦ inl (sym ((eq_iff "and" operator).0 conj), cc (rw conj at h))
  | inr other ↦ elim (Bool-cases (str_eq "or" operator)) [
    | inl disj ↦ inr (sym ((eq_iff "or" operator).0 disj), cc (rw (other, disj) at h))
    | inr neither ↦ absurd (cc (rw (other, neither) at h))
  ]
]

module _ {Clause Row : Type 0} (sql : Sqlalchemy Clause) (truth : Clause → Row → Truth)
    (registry : Dict Schema) (schema : Schema) (row : Row) where
  abbrev clause_truth : Result Clause → Truth
  clause_truth (ok c) = truth c row
  clause_truth (raised e) = Truth.unknown

  -- what the clause of a field's expression says of the row
  unfoldable pub leaf_truth : String → String → String → Value → Truth
  leaf_truth name operator mode value =
      clause_truth (leaf_clause sql registry schema name operator mode value)

module _ {Clause Row : Type 0} (sql : Sqlalchemy Clause) (truth : Clause → Row → Truth)
    (laws : IsSql sql truth) (registry : Dict Schema) (schema : Schema) (row : Row) where
  abbrev leaf : String → String → String → Value → Truth
  leaf = leaf_truth sql truth registry schema row

  truths-append :
      (cs ds : List Clause)
      → truths sql truth row (cs ++ ds) ≡ truths sql truth row cs ++ truths sql truth row ds
  truths-append [] ds = refl
  truths-append (c ∷ cs) ds = ap (λ ts. truth c row ∷ ts) (truths-append cs ds)

  composite_truth :
      (operator mode : String) (combine : List Clause → Clause) (c : Clause) (cs : List Clause)
      → composite_operator sql registry mode operator ≡ ok combine
      → truth (combine (c ∷ cs)) row ≡ group_says leaf operator mode (truths sql truth row (c ∷ cs))
  unfolding composite_operator
  composite_truth operator mode combine c cs h = elim (by_mode_ok _ _ mode operator h) [
    | inl (dot, found) ↦ elim (get_two _ _ combine operator found) [
      | inl (conj, same) ↦ rw (dot, conj, same) (laws.conjunction c cs row)
      | inr (disj, same) ↦ rw (dot, disj, same) (laws.disjunction c cs row)
    ]
    | inr (bang, found) ↦ elim (get_two _ _ combine operator found) [
      | inl (conj, same) ↦
          rw (bang, conj, same)
            (laws.negation (sql.and_ (c ∷ cs)) row ∙ ap opposite_of (laws.conjunction c cs row))
      | inr (disj, same) ↦
          rw (bang, disj, same)
            (laws.negation (sql.or_ (c ∷ cs)) row ∙ ap opposite_of (laws.disjunction c cs row))
    ]
  ]

  -- the clauses of a value with an expression are some
  mutual
    unfolding gen_query has_expressions

    gen_query-some :
        (v : Value) (cs : List Clause)
        → gen_query sql registry schema v ≡ ok cs
        → has_expressions v ≡ true
        → cs ≢ []
    gen_query-some (Value.query_expression name operator mode value) cs made h e =
        let (c, done, same) =
          and_then_ok
            (expression_clause sql registry schema name operator mode value
              (gen_query sql registry schema value))
            _ made in
        cc (ok_inj same ∙ e)
    gen_query-some (Value.list items) cs made h e = gen_items-some items cs made h e
    gen_query-some Value.null cs made h e = cc h
    gen_query-some (Value.flag b) cs made h e = cc h
    gen_query-some (Value.number n) cs made h e = cc h
    gen_query-some (Value.text s) cs made h e = cc h
    gen_query-some (Value.object _) cs made h e = cc h

    gen_items-some :
        (items : Items) (cs : List Clause)
        → gen_items sql registry schema items ≡ ok cs
        → have_expressions items ≡ true
        → cs ≢ []
    gen_items-some Items.no_items cs made h e = cc h
    gen_items-some (Items.item v items) cs made h e =
        let (first, done, more) = and_then_ok (gen_query sql registry schema v) _ made in
        let (rest, all_done, same) = and_then_ok (gen_items sql registry schema items) _ more in
        let (no_first, no_rest) = append_unless_empty first rest (ok_inj same ∙ e) in
        elim (Bool-cases (has_expressions v)) [
          | inl here ↦ gen_query-some v first done here no_first
          | inr there ↦ gen_items-some items rest all_done (rw there at h) no_rest
        ]

  group_lem :
      (operator mode : String) (value : Value) (inner : Result (List Clause)) (c : Clause)
      → ((cs : List Clause)
          → inner ≡ ok cs
          → (cs ≢ []) × (truths sql truth row cs ≡ each_says leaf value))
      → group_clause sql registry operator mode inner ≡ ok c
      → truth c row ≡ group_says leaf operator mode (each_says leaf value)
  unfolding group_clause
  group_lem operator mode value inner c ih h =
      let (cs, done, more) = and_then_ok inner _ h in
      let (combine, found, same) =
        and_then_ok (composite_operator sql registry mode operator) _ more in
      let (full, say) = ih cs done in
      ap (λ x. truth x row) (sym (ok_inj same))
      ∙ by_list cs combine found full
      ∙ ap (group_says leaf operator mode) say
    where
      by_list :
          (cs : List Clause) (combine : List Clause → Clause)
          → composite_operator sql registry mode operator ≡ ok combine
          → cs ≢ []
          → truth (combine cs) row ≡ group_says leaf operator mode (truths sql truth row cs)
      by_list [] combine found full = absurd (full refl)
      by_list (d ∷ ds) combine found full = composite_truth operator mode combine d ds found

  leaf_lem :
      (name operator mode : String) (value : Value) (c : Clause)
      → leaf_clause sql registry schema name operator mode value ≡ ok c
      → truth c row ≡ leaf name operator mode value
  unfolding leaf_truth
  leaf_lem name operator mode value c h = ap (clause_truth sql truth registry schema row) (sym h)

  mutual
    unfolding gen_query filled each_says

    gen_query-truths :
        (v : Value) (cs : List Clause)
        → gen_query sql registry schema v ≡ ok cs
        → filled v ≡ true
        → truths sql truth row cs ≡ each_says leaf v
    gen_query-truths (Value.query_expression none operator mode value) cs made h =
        let (c, done, same) =
          and_then_ok
            (group_clause sql registry operator mode (gen_query sql registry schema value)) _
            made in
        let (some_, within) = and_parts (has_expressions value) (filled value) h in
        ap (truths sql truth row) (sym (ok_inj same))
        ∙ ap (λ t. t ∷ [])
            (group_lem operator mode value _ c
              (λ ds found.
                (gen_query-some value ds found some_, gen_query-truths value ds found within))
              done)
    gen_query-truths (Value.query_expression (some name) operator mode value) cs made h =
        let (c, done, same) =
          and_then_ok
            (expression_clause sql registry schema (some name) operator mode value
              (gen_query sql registry schema value))
            _ made in
        ap (truths sql truth row) (sym (ok_inj same))
        ∙ ap (λ t. t ∷ [])
            (elim (Bool-cases (str_eq name "")) [
              | inl unnamed ↦
                  let (some_, within) =
                    and_parts (has_expressions value) (filled value) (rw unnamed at h) in
                  rw unnamed (
                    group_lem operator mode value _ c
                      (λ ds found. (
                        gen_query-some value ds found some_,
                        gen_query-truths value ds found within,
                      ))
                      (rw unnamed at done))
              | inr named ↦ rw named (leaf_lem name operator mode value c (rw named at done))
            ])
    gen_query-truths (Value.list items) cs made h = gen_items-truths items cs made h
    gen_query-truths (Value.object Members.no_members) cs made h =
        ap (truths sql truth row) (sym (ok_inj made))
    gen_query-truths (Value.object (Members.member key v rest)) cs made h = absurd (cc made)
    gen_query-truths Value.null cs made h = absurd (cc made)
    gen_query-truths (Value.flag b) cs made h = absurd (cc made)
    gen_query-truths (Value.number n) cs made h = absurd (cc made)
    gen_query-truths (Value.text s) cs made h = absurd (cc made)

    pub gen_items-truths :
        (items : Items) (cs : List Clause)
        → gen_items sql registry schema items ≡ ok cs
        → all_filled items ≡ true
        → truths sql truth row cs ≡ items_say leaf items
    gen_items-truths Items.no_items cs made h = ap (truths sql truth row) (sym (ok_inj made))
    gen_items-truths (Items.item v items) cs made h =
        let (first, done, more) = and_then_ok (gen_query sql registry schema v) _ made in
        let (rest, all_done, same) = and_then_ok (gen_items sql registry schema items) _ more in
        let (this, those) = and_parts (filled v) (all_filled items) h in
        ap (truths sql truth row) (sym (ok_inj same))
        ∙ truths-append first rest
        ∙ ap (λ ts. ts ++ truths sql truth row rest) (gen_query-truths v first done this)
        ∙ ap (λ ts. each_says leaf v ++ ts) (gen_items-truths items rest all_done those)
