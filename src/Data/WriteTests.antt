-- ===== src/Data/WriteTests.antt =====
-- Writes of a small database, and models.
use fluvius_py.Common.{
  ◌≡◌, refl, ◌⊎◌, ℕ, suc, ◌+◌, ◌*◌, ◌≤◌, ◌<◌, true, false, [], ◌∷◌, some, str_eq, or_default,
}
use fluvius_py.Common.Int.{pos}
use fluvius_py.Common.Dict.{get, put}
use fluvius_py.Exec.{Failure, ok, raised}
use fluvius_py.Query.Statements.{Value, Members}
use fluvius_py.Query.Manager.{BackendQuery}
use fluvius_py.Data.Driver.{Driver, Cursor, QueryMeta, query_meta}
use fluvius_py.Data.Driver as Connector
use fluvius_py.Data.Manager.{default_query, update, invalidate, remove}
use fluvius_py.Data.Models.{Models, register_model, setup_model, Record}
use fluvius_py.Data.Manager as Access
use fluvius_py.Data.Registered.{
  IsConsistent, IsFree, IsRefused, Registers, register_model-IsConsistent, setup_model-IsConsistent,
}
use fluvius_py.Data.Counts.{query_meta-pages}
use fluvius_py.Data.Example.{Row, sql, Db, engine}
use fluvius_py.Data.Tests.{registry, harry}

-- the table of the database, with another user
abbrev ron : Row
ron = ("_id", "u2") ∷ ("full_name", "Ron") ∷ []

abbrev db : Db
db name = harry ∷ ron ∷ []

abbrev session : Driver Db
session = record { active = true; db = db }

abbrev no_models : Models
no_models = record { models = []; resources = []; auto = [] }

abbrev user_models : Models
user_models = record {
  models = ("user", "User") ∷ [];
  resources = ("User", "user") ∷ [];
  auto = ("user", false) ∷ [];
}

abbrev access : Access.Manager Row
access = record {
  models = user_models;
  is_instance = λ r model_cls. str_eq r.model_cls model_cls;
  serialize = λ r. r.content;
  construct = λ model_cls row. ok (record {
    model_cls = model_cls;
    id = or_default (get "_id" row) "";
    etag = get "_etag" row;
    content = Members.no_members;
  });
}

abbrev stale : Record
stale = record { model_cls = "User"; id = "u1"; etag = some "old"; content = Members.no_members }

abbrev no_cursor : Cursor Row
no_cursor = record { rowcount = 1; rows = [] }

abbrev now : Value
now = Value.text "now"

abbrev token : Value
token = Value.text "token"

abbrev updated : Driver Db
updated = (update sql registry engine access now token stale Members.no_members session).1

abbrev invalidated : Driver Db
invalidated = (invalidate sql registry engine access now token stale session).1

abbrev removed : Driver Db
removed = (remove sql registry engine access stale session).1

-- the generated model of a schema, whose name a class takes
abbrev generated : Models
generated = setup_model (("user", "UserSchema") ∷ []) no_models

empty-IsConsistent : IsConsistent no_models
unfolding get
empty-IsConsistent =
    (λ model_name model_cls e. absurd (cc e), λ model_name model_cls e. absurd (cc e), λ name. refl)

register_model-IsConsistent_example :
    ((register_model "user" "User" false generated
        ≡ raised (Failure.user_error "ResourceAlreadyRegistered"))
      × IsRefused "user" "User" generated)
    ⊎ ((n : Models) × (register_model "user" "User" false generated ≡ ok n)
        × IsFree "user" "User" generated
        × IsConsistent n
        × Registers "user" "User" generated n)
register_model-IsConsistent_example =
    register_model-IsConsistent "user" "User" false generated
      (setup_model-IsConsistent (("user", "UserSchema") ∷ []) no_models empty-IsConsistent)

-- The generated class stays registered under the name, which another class has now.
name_taken :
    register_model "user" "User" false generated
    ≡ ok (record {
      models = ("user", "User") ∷ [];
      resources = ("UserSchema", "user") ∷ ("User", "user") ∷ [];
      auto = ("user", false) ∷ [];
    })
unfolding register_model setup_model get put
name_taken = refl

abbrev ten : BackendQuery
ten = record default_query { limit = pos 10; offset = pos 30 }

query_meta-pages_example :
    (meta : QueryMeta) × (k : ℕ) × (p : ℕ) × (query_meta ten 20 ≡ ok meta)
    × (meta.pages ≡ pos (suc k))
    × (10 * k ≤ 20)
    × (20 < 10 * k + 10)
    × (meta.page ≡ pos (suc p))
    × (10 * p ≤ 30)
    × (30 < 10 * p + 10)
query_meta-pages_example = query_meta-pages ten 20 9 30 refl refl

-- Twenty rows fill two pages of ten, and three are counted.
three_pages :
    query_meta ten 20
    ≡ ok (record { limit = pos 10; offset = pos 30; page = pos 4; total = 20; pages = pos 3 })
unfolding query_meta
three_pages = refl
