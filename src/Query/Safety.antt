-- ===== src/Query/Safety.antt =====
-- The statements of a client become expressions that a resource's filters make.
use fluvius_py.Common.{
  ◌≡◌, subst, zero, suc, true, false, inl, inr, Bool-cases, ◌≢◌, List, [], ◌∷◌, str_eq,
}
use fluvius_py.Exec.{ok, and_then_ok, ok_inj}
use fluvius_py.Query.Statements.{
  Value, Items, Members, QueryExpression, Filter, FilterMap, member_expression, process,
  process_items, process_members, process_query_statement,
}
use fluvius_py.Query.Permitted.{
  IsJson, AreJson, HaveJson, Filters, AllowedItems, Permitted, Permitted-append, member-One,
}

abbrev pub AllJson : List Value → Type 0
AllJson [] = Unit
AllJson (v ∷ vs) = IsJson v × AllJson vs

module _ (Q : Filter → Type 0) (filters : FilterMap) (full : filters ≢ [])
    (kind : Filters Q filters) where
  mutual
    unfolding process AllowedItems IsJson

    process-Permitted :
        (v : Value) (es : List QueryExpression)
        → IsJson v
        → process filters v ≡ ok es
        → Permitted Q es
    process-Permitted Value.null es j h = subst (Permitted Q) (ok_inj h) tt
    process-Permitted (Value.flag false) es j h = subst (Permitted Q) (ok_inj h) tt
    process-Permitted (Value.flag true) es j h = absurd (cc h)
    process-Permitted (Value.number zero) es j h = subst (Permitted Q) (ok_inj h) tt
    process-Permitted (Value.number (suc n)) es j h = absurd (cc h)
    process-Permitted (Value.text s) es j h = elim (Bool-cases (str_eq s "")) [
      | inl none ↦ subst (Permitted Q) (ok_inj (rw none at h)) tt
      | inr some ↦ absurd (cc (rw some at h))
    ]
    process-Permitted (Value.list items) es j h = process_items-Permitted items es j h
    process-Permitted (Value.object members) es j h = process_members-Permitted members es j h
    process-Permitted (Value.query_expression field operator mode value) es j h = absurd j

    process_items-Permitted :
        (items : Items) (es : List QueryExpression)
        → AreJson items
        → process_items filters items ≡ ok es
        → Permitted Q es
    process_items-Permitted Items.no_items es j h = subst (Permitted Q) (ok_inj h) tt
    process_items-Permitted (Items.item v items) es (j, js) h =
        let (first, done, more) = and_then_ok (process filters v) _ h in
        let (rest, all_done, same) = and_then_ok (process_items filters items) _ more in
        subst (Permitted Q) (ok_inj same) (
          Permitted-append Q first rest (process-Permitted v first j done)
            (process_items-Permitted items rest js all_done))

    process_members-Permitted :
        (members : Members) (es : List QueryExpression)
        → HaveJson members
        → process_members filters members ≡ ok es
        → Permitted Q es
    process_members-Permitted Members.no_members es j h = subst (Permitted Q) (ok_inj h) tt
    process_members-Permitted (Members.member key v members) es (j, js) h =
        let (first, done, more) =
          and_then_ok (member_expression filters key v (process filters v)) _ h in
        let (rest, all_done, same) = and_then_ok (process_members filters members) _ more in
        subst (Permitted Q) (ok_inj same) (
          member-One Q filters key v (process filters v) full kind
              (λ inner e. process-Permitted v inner j e) done,
          process_members-Permitted members rest js all_done,
        )

  -- all the statements of a query
  pub process_query_statement-Permitted :
      (vs : List Value) (es : List QueryExpression)
      → AllJson vs
      → process_query_statement filters vs ≡ ok es
      → Permitted Q es
  unfolding process_query_statement AllowedItems
  process_query_statement-Permitted [] es j h = subst (Permitted Q) (ok_inj h) tt
  process_query_statement-Permitted (v ∷ vs) es (j, js) h =
      let (first, done, more) = and_then_ok (process filters v) _ h in
      let (rest, all_done, same) = and_then_ok (process_query_statement filters vs) _ more in
      subst (Permitted Q) (ok_inj same) (
        Permitted-append Q first rest (process-Permitted v first j done)
          (process_query_statement-Permitted vs rest js all_done))
