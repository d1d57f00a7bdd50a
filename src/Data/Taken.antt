-- ===== src/Data/Taken.antt =====
-- Which rows the statements of a query take.
use fluvius_py.Common.{◌≡◌, sym, ◌∙◌, ap, true, List, Option}
use fluvius_py.Common.Dict.{Dict}
use fluvius_py.Exec.{ok, and_then_ok, ok_inj}
use fluvius_py.Query.Statements.{Value, as_values}
use fluvius_py.Query.Manager.{BackendQuery}
use fluvius_py.Data.Columns.{Schema}
use fluvius_py.Data.Clauses.{Sqlalchemy, where_clauses, sort_clauses}
use fluvius_py.Data.Statements.{
  Select, Statement, build_select, build_update, build_delete, select_columns, chosen_names,
  build_join, build_values,
}
use fluvius_py.Data.Truth.{Truth, takes, IsSql}
use fluvius_py.Data.Filled.{all_filled}
use fluvius_py.Data.Where.{where_clauses_lem, asks}

module _ {Clause Row : Type 0} (sql : Sqlalchemy Clause) (truth : Clause → Row → Truth)
    (registry : Dict Schema) (schema : Schema) (q : BackendQuery) (row : Row) where
  -- an update of the rows that the query asks for
  abbrev pub Updates : Statement Clause → Type 0
  Updates u =
      (cs : List Clause) × (changes : Option Value) × (u ≡ Statement.update schema.name cs changes)
      × (takes sql truth cs row ≡ asks sql truth registry schema row q)

  abbrev pub Deletes : Statement Clause → Type 0
  Deletes d =
      (cs : List Clause) × (d ≡ Statement.delete schema.name cs)
      × (takes sql truth cs row ≡ asks sql truth registry schema row q)

-- The statements that are made of a query, where its scope and its conditions have no empty groups and
-- the clauses mean what SQL says. A select takes the rows that the query asks for: those with its
-- identifier, of which its scope and its conditions are true, that are not deleted unless deleted
-- ones are included, and that match its text. An update and a delete are of the schema's table and
-- take the same rows.
pub build_select-take :
    {Clause Row : Type 0} (sql : Sqlalchemy Clause) (truth : Clause → Row → Truth)
    (registry : Dict Schema) (schema : Schema) (q : BackendQuery) (values : Value)
    (s : Select Clause) (u d : Statement Clause) (row : Row)
    → IsSql sql truth
    → all_filled (as_values q.scope) ≡ true
    → all_filled (as_values q.where_) ≡ true
    → build_select sql registry schema q ≡ ok s
    → build_update sql registry schema q values ≡ ok u
    → build_delete sql registry schema q ≡ ok d
    → (takes sql truth s.where_ row ≡ asks sql truth registry schema row q)
      × Updates sql truth registry schema q row u
      × Deletes sql truth registry schema q row d
unfolding build_select build_update build_delete
build_select-take sql truth registry schema q values s u d row laws scoped wanted selected updated
      deleted =
    let (columns, one, more) =
      and_then_ok (select_columns sql registry schema q.alias (chosen_names sql registry schema q))
        _ selected in
    let (join, two, rest) = and_then_ok (build_join sql registry schema q.join) _ more in
    let (ks, three, last) = and_then_ok (where_clauses sql registry schema q) _ rest in
    let (order, four, same) = and_then_ok (sort_clauses sql registry schema q.sort) _ last in
    let (ls, five, put_) = and_then_ok (where_clauses sql registry schema q) _ updated in
    let (changes, six, as_update) = and_then_ok (build_values values) _ put_ in
    let (ms, seven, as_delete) = and_then_ok (where_clauses sql registry schema q) _ deleted in
    (
      ap (λ (x : Select _). takes sql truth x.where_ row) (sym (ok_inj same)) ∙ asked ks three,
      (ls, changes, sym (ok_inj as_update), asked ls five),
      (ms, sym (ok_inj as_delete), asked ms seven),
    )
  where
    asked :
        (ks : List _)
        → where_clauses sql registry schema q ≡ ok ks
        → takes sql truth ks row ≡ asks sql truth registry schema row q
    asked ks made = where_clauses_lem sql truth registry schema row laws q ks scoped wanted made
