-- ===== src/Query/Tests.antt =====
-- A manager with one resource, and queries of it.
use fluvius_py.Common.{◌≡◌, refl, String, true, false, none, some, List, [], ◌∷◌}
use fluvius_py.Common.Int.{pos, negsuc}
use fluvius_py.Common.Sorting.{sort, insert}
use fluvius_py.Common.Dict.{get, put}
use fluvius_py.Exec.{Failure, Result, ok, raised}
use fluvius_py.Query.Statements.{
  Value, Items, Members, split, from_parts, operator_statement, get_filter, expression,
  field_expression, composite_expression, member_expression, process, process_query_statement,
}
use fluvius_py.Query.Resources.{
  Template, Presets, collect_filters, define_preset, get_preset, QueryField, put_filter, generate,
  set_identifier, include_field, process_field, process_fields, ResourceClass, QueryResource,
  finish_resource, initialize_resource,
}
use fluvius_py.Query.Select.{split_dots, sort_parts, sort_each, process_sort, process_select}
use fluvius_py.Query.Manager.{
  FrontendQuery, BackendQuery, PolicyRequest, PolicyResponse, Manager, register_resource,
  lookup_query_resource, validate_fe_query, checked, authorize_by_policy, construct_backend_query,
  prepare_query, query_resource, offset_of, inverse,
}
use fluvius_py.Query.Initialized.{Valid, initialize_resource-Valid}
use fluvius_py.Query.Guard.{AreValid, register_resource-AreValid}
use fluvius_py.Query.PresetLaws.{AreSound, define_preset-AreSound, AreSound-AreFull}

abbrev equals : List (String × Template)
equals =
    ("eq", record { operator = none; default = true; validator = none })
    ∷ ("ne", record { operator = none; default = false; validator = none })
    ∷ []

abbrev presets : Presets
presets = ("string", record { filters = equals; default = "eq" }) ∷ []

no_preset : AreSound []
unfolding get_preset get
no_preset name p e = absurd (cc e)

presets_sound : AreSound presets
unfolding define_preset collect_filters get put
presets_sound = define_preset-AreSound "string" equals [] presets no_preset refl

abbrev pub id_field : QueryField
id_field = record {
  name = "id";
  title = "ID";
  preset = "string";
  identifier = true;
  sortable = true;
  source = "_id";
  default_filter = "";
  weight = pos 100;
  dtype = "";
  excluded = false;
  hidden = true;
}

abbrev pub name_field : QueryField
name_field = record id_field {
  name = "name";
  identifier = false;
  source = "full_name";
  weight = pos 0;
  hidden = false;
}

abbrev pub secret : QueryField
secret = record name_field { name = "secret"; source = ""; excluded = true }

abbrev pub users : ResourceClass
users = record {
  fields = id_field ∷ name_field ∷ secret ∷ [];
  meta_excluded = [];
  default_order = [];
  include_all = false;
  allow_text_search = false;
  policy_required = true;
  initialized = none;
}

abbrev pub user : QueryResource
user = record {
  identifier = "user";
  idfield = "id";
  fields =
      record {
        weight = pos 0;
        name = "name";
        label = "ID";
        noop = "eq";
        sortable = true;
        hidden = false;
        dtype = "string";
      }
      ∷ record {
        weight = pos 100;
        name = "id";
        label = "ID";
        noop = "eq";
        sortable = true;
        hidden = true;
        dtype = "string";
      }
      ∷ [];
  field_filters =
      (("id", "eq"), record { selector = ("_id", "eq"); validator = none })
      ∷ (("id", "ne"), record { selector = ("_id", "ne"); validator = none })
      ∷ (("name", "eq"), record { selector = ("full_name", "eq"); validator = none })
      ∷ (("name", "ne"), record { selector = ("full_name", "ne"); validator = none })
      ∷ [];
  fieldmap = ("id", "_id") ∷ ("name", "full_name") ∷ [];
  excluded_fields = "secret" ∷ [];
  included_fields = "id" ∷ "name" ∷ [];
  order = "id.desc" ∷ [];
  meta = users;
}

user_made : initialize_resource presets "user" users ≡ ok user
unfolding initialize_resource process_fields process_field include_field get_preset set_identifier
    generate put_filter finish_resource sort insert get put
user_made = refl

-- A field that the class itself excludes keeps its filters and stays among the included ones.
abbrev guarded_users : ResourceClass
guarded_users = record users { meta_excluded = "name" ∷ [] }

still_filtered :
    initialize_resource presets "user" guarded_users
    ≡ ok (record user { excluded_fields = "secret" ∷ "name" ∷ []; meta = guarded_users })
unfolding initialize_resource process_fields process_field include_field get_preset set_identifier
    generate put_filter finish_resource sort insert get put
still_filtered = refl

initialize_resource-Valid_example : Valid user × (user.meta ≡ users)
initialize_resource-Valid_example =
    initialize_resource-Valid presets "user" users user (AreSound-AreFull presets presets_sound)
      user_made

abbrev pub rows : List Value
rows = Value.text "Harry" ∷ []

abbrev pub empty_manager : Manager
empty_manager = record {
  prefix = "people";
  resources = [];
  query_permission = true;
  base_query = λ auth scope. scope;
  policymgr = some (λ req. ok (record { allowed = true; restriction = Value.null }));
  execute = λ b. ok rows;
  arrange = λ xs. xs;
}

abbrev pub manager : Manager
manager = record empty_manager { resources = ("user", user) ∷ [] }

no_resource : AreValid empty_manager
unfolding get
no_resource key r e = absurd (cc e)

registered : register_resource presets "user" users empty_manager ≡ ok manager
unfolding register_resource initialize_resource process_fields process_field include_field
    get_preset set_identifier generate put_filter finish_resource sort insert get put
registered = refl

register_resource-AreValid_example : AreValid manager
register_resource-AreValid_example =
    register_resource-AreValid presets "user" users empty_manager manager
      (AreSound-AreFull presets presets_sound) no_resource registered

-- `{".or": [{"name": "Harry"}, {"name!ne": "James"}]}`
abbrev pub wanted : Value
wanted = Value.object (
    Members.member ".or"
      (Value.list (
        Items.item (Value.object (Members.member "name" (Value.text "Harry") Members.no_members)) (
          Items.item
            (Value.object (Members.member "name!ne" (Value.text "James") Members.no_members))
            Items.no_items)))
      Members.no_members)

abbrev pub page_two : FrontendQuery
page_two = record {
  limit = pos 10;
  page = pos 2;
  include = [];
  exclude = [];
  sort = [];
  user_query = wanted;
  path_query = Value.null;
  scope = Value.null;
  text = "";
}

abbrev pub expected : BackendQuery
expected = record {
  identifier = none;
  include = "_id" ∷ "full_name" ∷ [];
  exclude = "secret" ∷ [];
  limit = pos 10;
  offset = pos 10;
  sort = ("_id", "desc") ∷ [];
  where_ =
      record {
        field = none;
        operator = "or";
        mode = ".";
        value = Value.list (
            Items.item (Value.query_expression (some "full_name") "eq" "." (Value.text "Harry")) (
              Items.item (Value.query_expression (some "full_name") "ne" "!" (Value.text "James"))
                Items.no_items));
      }
      ∷ [];
  scope = [];
  alias = ("_id", "id") ∷ ("full_name", "name") ∷ [];
  etag = none;
  join = [];
  incl_deleted = false;
  text = "";
}

pub prepared : prepare_query manager (some "me") "user" none page_two ≡ ok expected
unfolding prepare_query lookup_query_resource get validate_fe_query authorize_by_policy checked
    construct_backend_query process_query_statement process member_expression operator_statement
    split from_parts field_expression composite_expression get_filter expression process_sort
    sort_each sort_parts split_dots process_select inverse put
prepared = refl

abbrev allow : PolicyRequest → Result PolicyResponse
allow req = ok (record { allowed = true; restriction = Value.null })

got_rows : query_resource manager (some "me") "user" page_two ≡ ok rows
unfolding query_resource prepare_query lookup_query_resource get validate_fe_query
    authorize_by_policy checked construct_backend_query process_query_statement process
    member_expression operator_statement split from_parts field_expression composite_expression
    get_filter expression process_sort sort_each sort_parts split_dots process_select
got_rows = refl

one_separator :
    operator_statement "age!gt" ≡ ok (record { field = some "age"; operator = "gt"; mode = "!" })
unfolding operator_statement split from_parts
one_separator = refl

-- A key with two separators is not refused but cannot be unpacked.
two_separators : operator_statement "name.first.eq" ≡ raised (Failure.value_error "unpack")
unfolding operator_statement split from_parts
two_separators = refl

-- A client that asks for page 0 gets a negative offset.
page_zero : offset_of (pos 0) (pos 10) ≡ negsuc 9
page_zero = refl

-- A client that selects only names that the resource does not have selects nothing in particular, for
-- which the data layer takes all columns.
unknown_only : process_select (λ xs. xs) user ("nope" ∷ []) [] ≡ ([], "secret" ∷ [])
unfolding process_select get
unknown_only = refl
