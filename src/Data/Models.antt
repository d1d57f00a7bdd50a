-- ===== src/Data/Models.antt =====
-- data/data_manager/manager.py: the registry of models.
use fluvius_py.Common.{
  String, Bool, true, false, not, ◌&&◌, Option, List, [], ◌∷◌, is_some, or_default, if◌then◌else◌,
}
use fluvius_py.Common.Dict.{Dict, get, put}
use fluvius_py.Exec.{Failure, Result, ok, raised, require}
use fluvius_py.Query.Statements.{Members}

-- `_MODELS`, `_RESOURCES` and `_AUTO` of a manager; a class is its name
pub record Models : Type 0 where
  pub models : Dict String
  pub resources : Dict String
  pub auto : Dict Bool

-- `cls._MODELS` has the name, and not as a generated model
abbrev pub is_taken : String → Models → Bool
is_taken model_name m =
    is_some (get model_name m.models) && not (or_default (get model_name m.auto) false)

unfoldable pub register_model : String → String → Bool → Models → Result Models
register_model model_name model_cls is_generated m =
    if is_some (get model_cls m.resources)
    then raised (Failure.user_error "ResourceAlreadyRegistered")
    else if is_taken model_name m
    then raised (Failure.user_error "ResourceAlreadyRegistered")
    else ok (record {
      models = put model_name model_cls m.models;
      resources = put model_cls model_name m.resources;
      auto = put model_name is_generated m.auto;
    })

-- `setup_model`: every schema of the driver is a model, but those whose name or class is there.
unfoldable pub setup_model : List (String × String) → Models → Models
setup_model [] m = m
setup_model ((model_name, data_schema) ∷ schemas) m =
    setup_model schemas
      (elim (register_model model_name data_schema true m) [ ok n ↦ n | raised e ↦ m ])

unfoldable pub lookup_model : Models → String → Result String
lookup_model m model_name = require (Failure.key_error model_name) (get model_name m.models)

-- an instance of a model
pub record Record : Type 0 where
  pub model_cls : String
  pub id : String
  pub etag : Option String
  pub content : Members

unfoldable pub lookup_record_model : Models → Record → Result String
lookup_record_model m r = require (Failure.key_error r.model_cls) (get r.model_cls m.resources)
