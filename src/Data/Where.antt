-- ===== src/Data/Where.antt =====
-- Which rows the clauses of a query take.
use fluvius_py.Common.{
  ◌≡◌, refl, sym, ◌∙◌, ap, String, Bool, true, false, not, ◌&&◌, inl, inr, Bool-cases, List, [],
  ◌∷◌, ◌++◌, Option, none, some, str_eq, if◌then◌else◌,
}
use fluvius_py.Common.Dict.{Dict}
use fluvius_py.Exec.{Failure, Result, ok, raised, and_then, and_then_ok, ok_inj}
use fluvius_py.Query.Statements.{Value, QueryExpression, as_values}
use fluvius_py.Query.Manager.{BackendQuery}
use fluvius_py.Data.Columns.{Schema, Column, Operator, partition, has_attribute, field, fields}
use fluvius_py.Data.Clauses.{
  Sqlalchemy, build_expression, identifier_clauses, deleted_clauses, text_clauses, where_clauses,
  single, concat,
}
use fluvius_py.Data.Truth.{Truth, every_of, taken, taken-both_of, truths, takes, IsSql, items_say}
use fluvius_py.Data.Meaning.{leaf_truth, gen_items-truths}
use fluvius_py.Data.Filled.{all_filled, and_parts}

and_assoc : (a b c : Bool) → ((a && b) && c) ≡ (a && (b && c))
and_assoc true b c = refl
and_assoc false b c = refl

and_true : (a : Bool) → (a && true) ≡ a
and_true true = refl
and_true false = refl

module _ {Clause Row : Type 0} (sql : Sqlalchemy Clause) (truth : Clause → Row → Truth)
    (registry : Dict Schema) (schema : Schema) (row : Row) where
  takes-append :
      (cs ds : List Clause)
      → takes sql truth (cs ++ ds) row ≡ (takes sql truth cs row && takes sql truth ds row)
  takes-append [] ds = refl
  takes-append (c ∷ cs) ds =
      ap (λ b. taken (truth c row) && b) (takes-append cs ds)
      ∙ sym (and_assoc (taken (truth c row)) (takes sql truth cs row) (takes sql truth ds row))

  takes-truths :
      (cs : List Clause) → takes sql truth cs row ≡ taken (every_of (truths sql truth row cs))
  takes-truths [] = refl
  takes-truths (c ∷ cs) =
      ap (λ b. taken (truth c row) && b) (takes-truths cs)
      ∙ sym (taken-both_of (truth c row) (every_of (truths sql truth row cs)))

  abbrev pub taken_clause : Result Clause → Bool
  taken_clause (ok c) = taken (truth c row)
  taken_clause (raised e) = false

  abbrev pub key_column : Column
  key_column = record { table = schema.name; name = schema.primary_key; label = none }

  -- the row has the identifier of the query, if there is one
  abbrev pub is_identified : Option String → Bool
  is_identified none = true
  is_identified (some key) =
      if str_eq key ""
      then true
      else taken_clause (sql.compare Operator.eq key_column (Value.text key))

  abbrev pub deleted_column : Column
  deleted_column = record { table = schema.name; name = "_deleted"; label = none }

  -- the row is not deleted, where the schema has deleted rows and the query leaves them out
  abbrev pub is_live : Bool → Bool
  is_live incl_deleted =
      if not (has_attribute schema "_deleted")
      then true
      else if incl_deleted
      then true
      else taken (truth (sql.is_null deleted_column) row)

  -- all the expressions are true of the row
  abbrev pub satisfied : List QueryExpression → Bool
  satisfied es =
      taken (every_of (items_say (leaf_truth sql truth registry schema row) (as_values es)))

  abbrev pub matched_by : Result (List Column) → String → Bool
  matched_by (ok cs) text = taken (truth (sql.ts_match cs text) row)
  matched_by (raised e) text = false

  abbrev pub indexed : Option (List String) → Result (List Column)
  indexed none = raised (Failure.bad_request "E00.503")
  indexed (some index) = fields registry schema index

  abbrev pub is_matched : String → Bool
  is_matched text = if str_eq text "" then true else matched_by (indexed schema.ts_index) text

  -- what a query asks of a row
  abbrev pub asks : BackendQuery → Bool
  asks q =
      is_identified q.identifier
      && (satisfied q.scope
          && (satisfied q.where_ && (is_live q.incl_deleted && is_matched q.text)))

  identifier_lem :
      (identifier : Option String) (cs : List Clause)
      → identifier_clauses sql registry schema identifier ≡ ok cs
      → takes sql truth cs row ≡ is_identified identifier
  unfolding identifier_clauses
  identifier_lem none cs h = ap (λ ks. takes sql truth ks row) (sym (ok_inj h))
  identifier_lem (some key) cs h = elim (Bool-cases (str_eq key "")) [
    | inl blank ↦ rw blank (ap (λ ks. takes sql truth ks row) (sym (ok_inj (rw blank at h))))
    | inr given ↦
        rw given (by_clause (sql.compare Operator.eq key_column (Value.text key)) (rw given at h))
  ]
    where
      by_clause :
          (r : Result Clause)
          → single sql registry r ≡ ok cs
          → takes sql truth cs row ≡ taken_clause r
      by_clause (ok c) e =
          ap (λ ks. takes sql truth ks row) (sym (ok_inj e)) ∙ and_true (taken (truth c row))
      by_clause (raised x) e = absurd (cc e)

  deleted_lem :
      (incl_deleted : Bool) (cs : List Clause)
      → deleted_clauses sql registry schema incl_deleted ≡ ok cs
      → takes sql truth cs row ≡ is_live incl_deleted
  unfolding deleted_clauses field partition
  deleted_lem incl_deleted cs h = elim (Bool-cases (has_attribute schema "_deleted")) [
    | inr missing ↦ rw missing (ap (λ ks. takes sql truth ks row) (sym (ok_inj (rw missing at h))))
    | inl there ↦ elim (Bool-cases incl_deleted) [
      | inl kept ↦
          rw (there, kept)
            (ap (λ ks. takes sql truth ks row) (sym (ok_inj (rw (there, kept) at h))))
      | inr left ↦
          rw (there, left)
            (ap (λ ks. takes sql truth ks row) (sym (ok_inj (rw (there, left) at h))) ∙ and_true _)
    ]
  ]

  text_lem :
      (text : String) (cs : List Clause)
      → text_clauses sql registry schema text ≡ ok cs
      → takes sql truth cs row ≡ is_matched text
  unfolding text_clauses
  text_lem text cs h = elim (Bool-cases (str_eq text "")) [
    | inl blank ↦ rw blank (ap (λ ks. takes sql truth ks row) (sym (ok_inj (rw blank at h))))
    | inr given ↦ rw given (by_index schema.ts_index (rw given at h))
  ]
    where
      by_index :
          (index : Option (List String))
          → (elim index [
            | none ↦ raised (Failure.bad_request "E00.503")
            | some names ↦
                and_then (fields registry schema names) λ ks. ok (sql.ts_match ks text ∷ [])
          ])
            ≡ ok cs
          → takes sql truth cs row ≡ matched_by (indexed index) text
      by_index none e = absurd (cc e)
      by_index (some names) e =
          let (ks, read, same) = and_then_ok (fields registry schema names) _ e in
          ap (λ ks. takes sql truth ks row) (sym (ok_inj same))
          ∙ and_true _
          ∙ ap (λ r. matched_by r text) (sym read)

  concat_lem :
      (a b : Result (List Clause)) (cs : List Clause) {x y : Bool}
      → ((ks : List Clause) → a ≡ ok ks → takes sql truth ks row ≡ x)
      → ((ks : List Clause) → b ≡ ok ks → takes sql truth ks row ≡ y)
      → concat sql registry a b ≡ ok cs
      → takes sql truth cs row ≡ (x && y)
  concat_lem a b cs {x} {y} first rest h =
      let (ks, done, more) = and_then_ok a _ h in
      let (ls, all_done, same) = and_then_ok b _ more in
      ap (λ z. takes sql truth z row) (sym (ok_inj same))
      ∙ takes-append ks ls
      ∙ ap (λ z. z && takes sql truth ls row) (first ks done)
      ∙ ap (λ z. x && z) (rest ls all_done)

  module _ (laws : IsSql sql truth) where
    satisfied_lem :
        (es : List QueryExpression) (cs : List Clause)
        → all_filled (as_values es) ≡ true
        → build_expression sql registry schema es ≡ ok cs
        → takes sql truth cs row ≡ satisfied es
    unfolding build_expression
    satisfied_lem es cs full h =
        takes-truths cs
        ∙ ap (λ ts. taken (every_of ts))
            (gen_items-truths sql truth laws registry schema row (as_values es) cs h full)

    pub where_clauses_lem :
        (q : BackendQuery) (cs : List Clause)
        → all_filled (as_values q.scope) ≡ true
        → all_filled (as_values q.where_) ≡ true
        → where_clauses sql registry schema q ≡ ok cs
        → takes sql truth cs row ≡ asks q
    unfolding where_clauses
    where_clauses_lem q cs scoped wanted = concat_lem _ _ cs (identifier_lem q.identifier) (λ ks.
        concat_lem _ _ ks (λ ls. satisfied_lem q.scope ls scoped)
          (λ ls.
            concat_lem _ _ ls (λ ms. satisfied_lem q.where_ ms wanted)
              (λ ms. concat_lem _ _ ms (deleted_lem q.incl_deleted) (text_lem q.text))))

    abbrev taken_clauses : Result (List Clause) → Bool
    taken_clauses (ok cs) = takes sql truth cs row
    taken_clauses (raised e) = false

    -- a row that is taken is in the scope
    pub scope_lem :
        (q : BackendQuery) (cs : List Clause)
        → all_filled (as_values q.scope) ≡ true
        → where_clauses sql registry schema q ≡ ok cs
        → takes sql truth cs row ≡ true
        → satisfied q.scope ≡ true
    unfolding where_clauses
    scope_lem q cs scoped made h =
        let others : Result (List Clause) =
          concat sql registry (build_expression sql registry schema q.where_) (
            concat sql registry (deleted_clauses sql registry schema q.incl_deleted)
              (text_clauses sql registry schema q.text)) in
        let same : takes sql truth cs row
            ≡ (is_identified q.identifier && (satisfied q.scope && taken_clauses others)) =
          concat_lem _ _ cs (identifier_lem q.identifier)
            (λ ks.
              concat_lem _ _ ks (λ ls. satisfied_lem q.scope ls scoped)
                (λ ls e. ap taken_clauses (sym e)))
            made in
        (and_parts (satisfied q.scope) (taken_clauses others)
          (and_parts (is_identified q.identifier) _ (sym same ∙ h)).1).0
