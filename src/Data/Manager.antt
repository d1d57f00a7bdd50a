-- ===== src/Data/Manager.antt =====
-- data/data_manager/manager.py: the registry of models, and the data manager over a driver.
use fluvius_py.Common.{
  String, Bool, false, not, ◌||◌, Option, none, some, List, [], ◌∷◌, str_eq, any, if◌then◌else◌,
}
use fluvius_py.Common.Int.{pos}
use fluvius_py.Common.Dict.{Dict}
use fluvius_py.Exec.{
  Failure, Result, ok, raised, Exec, and_then, pure, lift, raise_if, attempt, ◌>>=◌, ◌>>◌,
}
use fluvius_py.Query.Statements.{Value, Members, process}
use fluvius_py.Query.Manager.{BackendQuery}
use fluvius_py.Data.Columns.{Schema}
use fluvius_py.Data.Clauses.{Sqlalchemy}
use fluvius_py.Data.Driver.{Cursor, Driver, QueryMeta, Engine}
use fluvius_py.Data.Driver as Driver
use fluvius_py.Data.Models.{Models, lookup_model, Record, lookup_record_model}

-- What a manager is made with: its models, and code of models and of other parts.
pub record Manager (Row : Type 0) : Type 0 where
  pub models : Models
  pub is_instance : Record → String → Bool
  pub serialize : Record → Members
  pub construct : String → Row → Result Record

abbrev pub default_query : BackendQuery
default_query = record {
  identifier = none;
  include = [];
  exclude = [];
  limit = pos 100;
  offset = pos 0;
  sort = [];
  where_ = [];
  scope = [];
  alias = [];
  etag = none;
  join = [];
  incl_deleted = false;
  text = "";
}

-- `BackendQuery.create` with an identifier and an etag
abbrev pub query_of : String → Option String → BackendQuery
query_of identifier etag = record default_query { identifier = some identifier; etag = etag }

-- `d[key] = value`
abbrev pub set_member : String → Value → Members → Members
set_member key value Members.no_members = Members.member key value Members.no_members
set_member key value (Members.member k v rest) =
    let others = set_member key value rest in
    if str_eq k key then Members.member k value rest else Members.member k v others

abbrev pub has_member : String → Members → Bool
has_member key Members.no_members = false
has_member key (Members.member k v rest) = str_eq k key || has_member key rest

-- the fields that a change sets
abbrev pub stamped : Value → Value → Members → Members
stamped ts etag updates = set_member "_etag" etag (set_member "_updated" ts updates)

module _ {Clause Row Db : Type 0} (sql : Sqlalchemy Clause) (registry : Dict Schema)
    (engine : Engine Clause Row Db) (m : Manager Row) where
  abbrev pub Access : Type 0 → Type 0
  Access A = Exec (Driver Db) A

  -- `_serialize`
  unfoldable pub serialized : String → Record → Result Members
  serialized model_name r = and_then (lookup_model m.models model_name) λ model_cls.
      if not (m.is_instance r model_cls)
      then raised (Failure.internal_error "E00.206")
      else ok (m.serialize r)

  -- `_wrap_item` of a row
  unfoldable pub wrap_item : String → Row → Result Record
  wrap_item model_name row =
      and_then (lookup_model m.models model_name) λ model_cls. m.construct model_cls row

  abbrev pub wrap_rows : String → List Row → Result (List Record)
  wrap_rows model_cls [] = ok []
  wrap_rows model_cls (row ∷ rows) =
      and_then (m.construct model_cls row)
        λ r. and_then (wrap_rows model_cls rows) λ rs. ok (r ∷ rs)

  unfoldable pub wrap_list : String → List Row → Result (List Record)
  wrap_list model_name rows =
      and_then (lookup_model m.models model_name) λ model_cls. wrap_rows model_cls rows

  unfoldable pub fetch : String → String → Option String → Members → Access Record
  fetch model_name identifier etag wanted = do
    where_ ← lift (process [] (Value.object wanted))
    row ←
        Driver.find_one sql registry engine model_name
          (record (query_of identifier etag) { where_ = where_ })
    lift (wrap_item model_name row)

  unfoldable pub fetch_with_domain_sid :
      String → String → String → Option String → Members → Access Record
  fetch_with_domain_sid model_name identifier domain_sid etag wanted = do
    scope ← lift (
        process []
          (Value.object (Members.member "_sid" (Value.text domain_sid) Members.no_members)))
    where_ ← lift (process [] (Value.object wanted))
    row ←
        Driver.find_one sql registry engine model_name
          (record (query_of identifier etag) { scope = scope; where_ = where_ })
    lift (wrap_item model_name row)

  unfoldable pub find_one : String → BackendQuery → Access Record
  find_one model_name q = do
    row ←
        Driver.find_one sql registry engine model_name (record q { limit = pos 2; offset = pos 0 })
    lift (wrap_item model_name row)

  abbrev pub not_found_is_none : Result Record → Result (Option Record)
  not_found_is_none (ok r) = ok (some r)
  not_found_is_none (raised (Failure.not_found code)) =
      if str_eq code "E00.001-06" then ok none else raised (Failure.not_found code)
  not_found_is_none (raised e) = raised e

  unfoldable pub exist : String → BackendQuery → Access (Option Record)
  exist model_name q = attempt (find_one model_name q) λ r. lift (not_found_is_none r)

  unfoldable pub query : String → BackendQuery → Bool → Access (List Record × Option QueryMeta)
  query model_name q return_meta = do
    found ← Driver.query sql registry engine model_name q return_meta
    records ← lift (wrap_list model_name found.0)
    pure (records, found.1)

  unfoldable pub find_all : String → BackendQuery → Bool → Access (List Record × Option QueryMeta)
  unfolding query
  find_all model_name q = query model_name (record q { offset = pos 0; limit = pos 1000 })

  -- the call of the driver, whose other arguments have names too
  unfoldable pub change : String → BackendQuery → Members → Access (Cursor Row)
  change model_name q changes = do
    raise_if (any (λ key. has_member key changes) ("self" ∷ "resource" ∷ "query" ∷ []))
        (Failure.type_error)
    Driver.update_data sql registry engine model_name q (Value.object changes)

  -- `ts` is the time, `token` the new etag, a random text
  unfoldable pub update : Value → Value → Record → Members → Access (Cursor Row)
  update ts token r updates = do
    model_name ← lift (lookup_record_model m.models r)
    change model_name (query_of r.id r.etag) (stamped ts token updates)

  unfoldable pub invalidate : Value → Value → Record → Access (Cursor Row)
  invalidate ts token r = do
    model_name ← lift (lookup_record_model m.models r)
    change model_name (query_of r.id r.etag)
        (stamped ts token (Members.member "_deleted" ts Members.no_members))

  unfoldable pub remove : Record → Access (Cursor Row)
  remove r = do
    model_name ← lift (lookup_record_model m.models r)
    Driver.remove_one sql registry engine model_name (query_of r.id r.etag)

  unfoldable pub insert : Record → Access (Cursor Row)
  insert r = do
    model_name ← lift (lookup_record_model m.models r)
    content ← lift (serialized model_name r)
    Driver.insert sql registry engine model_name (Value.object content)

  unfoldable pub upsert : String → Record → Access (Cursor Row)
  upsert model_name r = do
    content ← lift (serialized model_name r)
    Driver.upsert sql registry engine model_name content

  -- Each row comes with the etag that it gets.
  unfoldable pub insert_data : Value → String → List (Members × Value) → Access Unit
  insert_data ts model_name [] = pure tt
  insert_data ts model_name ((row, token) ∷ rows) = do
    Driver.insert sql registry engine model_name (Value.object (stamped ts token row))
    insert_data ts model_name rows

  unfoldable pub upsert_data : Value → String → List (Members × Value) → Access Unit
  upsert_data ts model_name [] = pure tt
  upsert_data ts model_name ((row, token) ∷ rows) = do
    Driver.upsert sql registry engine model_name (stamped ts token row)
    upsert_data ts model_name rows

  unfoldable pub update_data :
      Value → Value → String → String → Option String → Members → Access (Cursor Row)
  update_data ts token model_name identifier etag updates = do
    raise_if (any (λ key. has_member key updates) ("_updated" ∷ "_etag" ∷ [])) Failure.type_error
    change model_name (query_of identifier etag)
        (Members.member "_updated" ts (Members.member "_etag" token updates))

  unfoldable pub invalidate_data :
      Value → Value → String → String → Option String → Members → Access (Cursor Row)
  invalidate_data ts token model_name identifier etag updates = do
    raise_if (any (λ key. has_member key updates) ("_updated" ∷ "_deleted" ∷ "_etag" ∷ []))
        (Failure.type_error)
    change model_name (query_of identifier etag) (
        Members.member "_updated" ts
          (Members.member "_deleted" ts (Members.member "_etag" token updates)))
