-- ===== src/Data/Effects.antt =====
-- What the writing operations of the driver and of the data manager do to a table.
use mathlib.Core.Path.{fun_ext}
use fluvius_py.Common.{
  ◌≡◌, ◌≢◌, sym, ◌∙◌, ap, String, Bool, true, not, List, [], ◌∷◌, Option, filter, length,
  if◌then◌else◌,
}
use fluvius_py.Common.Dict.{Dict}
use fluvius_py.Exec.{ok, ok_inj, and_then_ok}
use fluvius_py.Query.Statements.{Value, is_named, as_values}
use fluvius_py.Query.Manager.{BackendQuery}
use fluvius_py.Data.Columns.{Schema, lookup_data_schema}
use fluvius_py.Data.Clauses.{Sqlalchemy, where_clauses}
use fluvius_py.Data.Statements.{Statement, build_update, build_delete, build_values}
use fluvius_py.Data.Truth.{Truth, takes, IsSql}
use fluvius_py.Data.Where.{asks, where_clauses_lem}
use fluvius_py.Data.Filled.{all_filled}
use fluvius_py.Data.Driver.{Cursor, Driver, Engine, update_data, remove_one}
use fluvius_py.Data.Returned.{bind_ok, handler_ok, passed, lifted, not-not, executed}

abbrev pub map_if : {A : Type 0} → (A → Bool) → (A → A) → List A → List A
map_if p f [] = []
map_if p f (x ∷ xs) = (if p x then f x else x) ∷ map_if p f xs

module _ {Clause Row Db : Type 0} (sql : Sqlalchemy Clause) (truth : Clause → Row → Truth)
    (engine : Engine Clause Row Db) (table : Db → String → List Row)
    (apply : Option Value → Row → Row) where
  -- the other tables are as they were
  abbrev pub KeepsOthers : String → Db → Db → Type 0
  KeepsOthers name db after = (other : String) → other ≢ name → table after other ≡ table db other

  -- What an update and a delete that the database accepts do: they count the rows that they take, and
  -- change or remove these.
  pub record IsDatabase : Type 0 where
    pub updates :
        (name : String) (cs : List Clause) (values : Option Value) (db after : Db)
        (cursor : Cursor Row)
        → engine.execute (Statement.update name cs values) db ≡ (ok cursor, after)
        → (cursor.rowcount ≡ length (filter (takes sql truth cs) (table db name)))
          × (table after name ≡ map_if (takes sql truth cs) (apply values) (table db name))
          × KeepsOthers name db after
    pub deletes :
        (name : String) (cs : List Clause) (db after : Db) (cursor : Cursor Row)
        → engine.execute (Statement.delete name cs) db ≡ (ok cursor, after)
        → (cursor.rowcount ≡ length (filter (takes sql truth cs) (table db name)))
          × (table after name ≡ filter (λ r. not (takes sql truth cs r)) (table db name))
          × KeepsOthers name db after

module _ {Clause Row Db : Type 0} (sql : Sqlalchemy Clause) (truth : Clause → Row → Truth)
    (registry : Dict Schema) (engine : Engine Clause Row Db) (table : Db → String → List Row)
    (apply : Option Value → Row → Row) where
  -- the query asks for the row
  abbrev pub asked : Schema → BackendQuery → Row → Bool
  asked schema q row = asks sql truth registry schema row q

  -- One row of the table was asked for, and it alone has got the values.
  abbrev pub ChangesOne : Schema → BackendQuery → Option Value → Db → Db → Type 0
  ChangesOne schema q values db after =
      (length (filter (asked schema q) (table db schema.name)) ≡ 1)
      × (table after schema.name ≡ map_if (asked schema q) (apply values) (table db schema.name))
      × KeepsOthers sql truth engine table apply schema.name db after

  -- One row of the table was asked for, and it is gone.
  abbrev pub RemovesOne : Schema → BackendQuery → Db → Db → Type 0
  RemovesOne schema q db after =
      (length (filter (asked schema q) (table db schema.name)) ≡ 1)
      × (table after schema.name ≡ filter (λ row. not (asked schema q row)) (table db schema.name))
      × KeepsOthers sql truth engine table apply schema.name db after

  module _ (laws : IsSql sql truth) (database : IsDatabase sql truth engine table apply)
      (schema : Schema) (q : BackendQuery) (scoped : all_filled (as_values q.scope) ≡ true)
      (wanted : all_filled (as_values q.where_) ≡ true) where
    takes-asked :
        (cs : List Clause)
        → where_clauses sql registry schema q ≡ ok cs
        → takes sql truth cs ≡ asked schema q
    takes-asked cs made =
        fun_ext λ row. where_clauses_lem sql truth registry schema row laws q cs scoped wanted made

    updated :
        (updates : Value) (values : Option Value) (stmt : Statement Clause) (db after : Db)
        (cursor : Cursor Row)
        → build_values updates ≡ ok values
        → build_update sql registry schema q updates ≡ ok stmt
        → engine.execute stmt db ≡ (ok cursor, after)
        → cursor.rowcount ≡ 1
        → ChangesOne schema q values db after
    unfolding build_update
    updated updates values stmt db after cursor written made done count =
        let (cs, wheres, more) = and_then_ok (where_clauses sql registry schema q) _ made in
        let (stored, given, same) = and_then_ok (build_values updates) _ more in
        let values_is : stored ≡ values = ok_inj (sym given ∙ written) in
        let (counts, changed, others) =
          database.updates schema.name cs stored db after cursor
            (ap (λ x. engine.execute x db) (ok_inj same) ∙ done) in
        let exact = takes-asked cs wheres in
        (
          ap (λ p. length (filter p (table db schema.name))) (sym exact) ∙ sym counts ∙ count,
          changed
              ∙ ap (λ p. map_if p (apply stored) (table db schema.name)) exact
              ∙ ap (λ v. map_if (asked schema q) (apply v) (table db schema.name)) values_is,
          others,
        )

    removed :
        (stmt : Statement Clause) (db after : Db) (cursor : Cursor Row)
        → build_delete sql registry schema q ≡ ok stmt
        → engine.execute stmt db ≡ (ok cursor, after)
        → cursor.rowcount ≡ 1
        → RemovesOne schema q db after
    unfolding build_delete
    removed stmt db after cursor made done count =
        let (cs, wheres, same) = and_then_ok (where_clauses sql registry schema q) _ made in
        let (counts, gone, others) =
          database.deletes schema.name cs db after cursor
            (ap (λ x. engine.execute x db) (ok_inj same) ∙ done) in
        let exact = takes-asked cs wheres in
        (
          ap (λ p. length (filter p (table db schema.name))) (sym exact) ∙ sym counts ∙ count,
          gone ∙ ap (λ (p : Row → Bool). filter (λ row. not (p row)) (table db schema.name)) exact,
          others,
        )

    pub update_data-one :
        (resource : String) (updates : Value) (values : Option Value) (d after : Driver Db)
        (cursor : Cursor Row)
        → lookup_data_schema registry resource ≡ ok schema
        → build_values updates ≡ ok values
        → update_data sql registry engine resource q updates d ≡ (ok cursor, after)
        → (is_named q.identifier ≡ true) × ChangesOne schema q values d.db after.db
    unfolding update_data
    update_data-one resource updates values d after cursor found written h =
        let (t, u, given, more) = bind_ok _ _ (handler_ok "E00.002" _ h) in
        let (named, u_is) = passed _ _ given in
        let (s, v, looked, rest) = bind_ok _ _ more in
        let (s_is, v_is) = lifted _ looked in
        let (stmt, w, built, last) = bind_ok _ _ rest in
        let (made, w_is) = lifted _ built in
        let (z, x, open_, run) = bind_ok _ _ last in
        let (active, x_is) = passed _ _ open_ in
        let (done, count) = executed sql registry engine stmt 1 x after cursor run in
        let start : d.db ≡ x.db = ap (λ (y : Driver Db). y.db) (u_is ∙ v_is ∙ w_is ∙ x_is) in
        let same : s ≡ schema = ok_inj (sym s_is ∙ found) in
        (
          not-not (is_named q.identifier) named,
          updated updates values stmt d.db after.db cursor written
              (ap (λ y. build_update sql registry y q updates) (sym same) ∙ made)
              (ap (engine.execute stmt) start ∙ done) count,
        )

    pub remove_one-one :
        (resource : String) (d after : Driver Db) (cursor : Cursor Row)
        → lookup_data_schema registry resource ≡ ok schema
        → remove_one sql registry engine resource q d ≡ (ok cursor, after)
        → (is_named q.identifier ≡ true) × RemovesOne schema q d.db after.db
    unfolding remove_one
    remove_one-one resource d after cursor found h =
        let (s, u, looked, more) = bind_ok _ _ (handler_ok "E00.003" _ h) in
        let (s_is, u_is) = lifted _ looked in
        let (t, v, given, rest) = bind_ok _ _ more in
        let (named, v_is) = passed _ _ given in
        let (stmt, w, built, last) = bind_ok _ _ rest in
        let (made, w_is) = lifted _ built in
        let (z, x, open_, run) = bind_ok _ _ last in
        let (active, x_is) = passed _ _ open_ in
        let (done, count) = executed sql registry engine stmt 1 x after cursor run in
        let start : d.db ≡ x.db = ap (λ (y : Driver Db). y.db) (u_is ∙ v_is ∙ w_is ∙ x_is) in
        let same : s ≡ schema = ok_inj (sym s_is ∙ found) in
        (
          not-not (is_named q.identifier) named,
          removed stmt d.db after.db cursor
              (ap (λ y. build_delete sql registry y q) (sym same) ∙ made)
              (ap (engine.execute stmt) start ∙ done) count,
        )
