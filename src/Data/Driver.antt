-- ===== src/Data/Driver.antt =====
-- data/data_driver/sqla/driver.py: the operations of the driver within a session of the database.
use Prim.Native.Nat.{◌/◌}
use fluvius_py.Common.{
  ℕ, zero, suc, String, Bool, true, false, not, ◌||◌, Option, none, some, List, [], ◌∷◌, str_eq,
  all, ◌==◌, if◌then◌else◌,
}
use fluvius_py.Common.Int.{ℤ, pos, negsuc}
use fluvius_py.Common.Dict.{Dict}
use fluvius_py.Exec.{
  Failure, DriverError, Result, ok, raised, Exec, and_then, pure, lift, raise_if, ◌>>=◌, ◌>>◌,
}
use fluvius_py.Query.Statements.{Value, Items, Members, is_named}
use fluvius_py.Query.Manager.{BackendQuery}
use fluvius_py.Data.Columns.{Schema, lookup_data_schema, has_attribute}
use fluvius_py.Data.Clauses.{Sqlalchemy}
use fluvius_py.Data.Statements.{
  Select, Statement, build_select, build_update, build_delete, build_insert,
}
use fluvius_py.Data.Errors.{sqla_error_handler}

pub record Cursor (Row : Type 0) : Type 0 where
  pub rowcount : ℕ
  pub rows : List Row

-- The driver: whether a session is active, and the database of its transaction.
pub record Driver (Db : Type 0) : Type 0 where
  pub active : Bool
  pub db : Db

-- `a // b`; none for a division by zero
abbrev pub floor_div : ℤ → ℤ → Option ℤ
floor_div a (pos zero) = none
floor_div (pos a) (pos (suc b)) = some (pos (a / suc b))
floor_div (negsuc a) (pos (suc b)) = some (negsuc (a / suc b))
floor_div (pos zero) (negsuc b) = some (pos 0)
floor_div (pos (suc a)) (negsuc b) = some (negsuc (a / suc b))
floor_div (negsuc a) (negsuc b) = some (pos (suc a / suc b))

abbrev pub add_one : ℤ → ℤ
add_one (pos n) = pos (suc n)
add_one (negsuc zero) = pos 0
add_one (negsuc (suc n)) = negsuc n

pub record QueryMeta : Type 0 where
  pub limit : ℤ
  pub offset : ℤ
  pub page : ℤ
  pub total : ℕ
  pub pages : ℤ

abbrev pub quotient : ℤ → ℤ → Result ℤ
quotient a b = elim (floor_div a b) [ none ↦ raised Failure.zero_division_error | some n ↦ ok n ]

-- what `query` writes into the dict of its caller
unfoldable pub query_meta : BackendQuery → ℕ → Result QueryMeta
query_meta q total = and_then (quotient q.offset q.limit) λ before.
    and_then (quotient (pos total) q.limit) λ full. ok (record {
      limit = q.limit;
      offset = q.offset;
      page = add_one before;
      total = total;
      pages = add_one full;
    })

-- the tests of `find_all`
abbrev pub is_internal_limit : ℤ → Bool
is_internal_limit (pos n) = n == 1000
is_internal_limit (negsuc n) = false

abbrev pub is_start : ℤ → Bool
is_start (pos zero) = true
is_start (pos (suc n)) = false
is_start (negsuc n) = false

abbrev pub keys_without_id : Members → List String
keys_without_id Members.no_members = []
keys_without_id (Members.member key v rest) =
    let keys = keys_without_id rest in if str_eq key "_id" then keys else key ∷ keys

abbrev pub item_count : Items → ℕ
item_count Items.no_items = 0
item_count (Items.item v items) = suc (item_count items)

-- `len(values) if isinstance(values, (list, tuple)) else 1`
abbrev pub expected_count : Value → ℕ
expected_count (Value.list items) = item_count items
expected_count (Value.query_expression name operator mode value) = 4
expected_count Value.null = 1
expected_count (Value.flag b) = 1
expected_count (Value.number n) = 1
expected_count (Value.text s) = 1
expected_count (Value.object _) = 1

-- The database and SQLAlchemy's session: a statement is executed, or a select's rows counted, and the
-- exceptions of `one`.
pub record Engine (Clause Row Db : Type 0) : Type 0 where
  pub execute : Statement Clause → Db → Result (Cursor Row) × Db
  pub count : Select Clause → Db → Result ℕ × Db
  pub no_result : DriverError
  pub multiple_results : DriverError

module _ {Clause Row Db : Type 0} (sql : Sqlalchemy Clause) (registry : Dict Schema)
    (engine : Engine Clause Row Db) where
  abbrev pub Session : Type 0 → Type 0
  Session A = Exec (Driver Db) A

  abbrev pub active_session : Session Unit
  active_session d = raise_if (not d.active) (Failure.unprocessable "E00.107") d

  abbrev pub within : {A : Type 0} → (Db → Result A × Db) → Session A
  within f d = let (r, db) = f d.db in (r, record d { db = db })

  abbrev pub execute : Statement Clause → Session (Cursor Row)
  execute stmt = within (engine.execute stmt)

  abbrev pub check_no_item_modified : Cursor Row → ℕ → Session (Cursor Row)
  check_no_item_modified cursor expect = do
    raise_if (not (cursor.rowcount == expect)) (Failure.not_found "E00.006")
    pure cursor

  -- the items, and the metadata where the caller has given a dict for them
  abbrev pub items_with :
      Bool → BackendQuery → Schema → Select Clause → Session (List Row × Option QueryMeta)
  items_with true q schema stmt = do
    total ← within (engine.count stmt)
    cursor ← execute (Statement.select schema.name stmt)
    meta ← lift (query_meta q total)
    pure (cursor.rows, some meta)
  items_with false q schema stmt = do
    cursor ← execute (Statement.select schema.name stmt)
    pure (cursor.rows, none)

  unfoldable pub query : String → BackendQuery → Bool → Session (List Row × Option QueryMeta)
  query resource q return_meta = do
    schema ← lift (lookup_data_schema registry resource)
    stmt ← lift (build_select sql registry schema q)
    active_session
    items_with return_meta q schema stmt

  unfoldable pub find_all : String → BackendQuery → Session (List Row × Option QueryMeta)
  find_all resource q = sqla_error_handler "E00.007" do
    raise_if (not (is_start q.offset) || not (is_internal_limit q.limit))
        (Failure.bad_request "E00.108")
    query resource q false

  abbrev pub one : List Row → Result Row
  one [] = raised (Failure.driver_error engine.no_result)
  one (r ∷ []) = ok r
  one (r ∷ s ∷ rows) = raised (Failure.driver_error engine.multiple_results)

  unfoldable pub find_one : String → BackendQuery → Session Row
  find_one resource q = sqla_error_handler "E00.001" do
    schema ← lift (lookup_data_schema registry resource)
    active_session
    stmt ← lift (build_select sql registry schema q)
    cursor ← execute (Statement.select schema.name stmt)
    lift (one cursor.rows)

  unfoldable pub update_data : String → BackendQuery → Value → Session (Cursor Row)
  update_data resource q updates = sqla_error_handler "E00.002" do
    raise_if (not (is_named q.identifier)) (Failure.value_error "update")
    schema ← lift (lookup_data_schema registry resource)
    stmt ← lift (build_update sql registry schema q updates)
    active_session
    cursor ← execute stmt
    check_no_item_modified cursor 1

  unfoldable pub remove_one : String → BackendQuery → Session (Cursor Row)
  remove_one resource q = sqla_error_handler "E00.003" do
    schema ← lift (lookup_data_schema registry resource)
    raise_if (not (is_named q.identifier)) (Failure.value_error "update")
    stmt ← lift (build_delete sql registry schema q)
    active_session
    cursor ← execute stmt
    check_no_item_modified cursor 1

  unfoldable pub insert : String → Value → Session (Cursor Row)
  insert resource values = sqla_error_handler "E00.004" do
    schema ← lift (lookup_data_schema registry resource)
    stmt ← lift (build_insert sql registry schema values)
    active_session
    cursor ← execute stmt
    check_no_item_modified cursor (expected_count values)

  unfoldable pub upsert : String → Members → Session (Cursor Row)
  upsert resource row = sqla_error_handler "E00.005" do
    schema ← lift (lookup_data_schema registry resource)
    raise_if (not (all (has_attribute schema) (keys_without_id row)))
        (Failure.attribute_error "excluded")
    raise_if (not (has_attribute schema "_id")) (Failure.attribute_error "_id")
    active_session
    cursor ← execute (Statement.upsert schema.name (Value.object row) (keys_without_id row))
    check_no_item_modified cursor 1
