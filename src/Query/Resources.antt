-- ===== src/Query/Resources.antt =====
-- query/filter.py, query/field.py and query/resource.py: the presets of filters, and a resource made of
-- its fields.
use fluvius_py.Common.{
  String, Bool, not, ◌&&◌, Option, none, some, List, [], ◌∷◌, ◌++◌, str_eq, filter, or_default,
  is_some, if◌then◌else◌,
}
use fluvius_py.Common.Int.{ℤ, le_int}
use fluvius_py.Common.Sorting.{sort}
use fluvius_py.Common.Dict.{Dict, get, put}
use fluvius_py.Exec.{Failure, Result, ok, raised, and_then, require}
use fluvius_py.Query.Statements.{Value, Filter, FilterMap, or_else}

-- a filter of a preset
pub record Template : Type 0 where
  pub operator : Option String
  pub default : Bool
  pub validator : Option (Value → Result Value)

-- the filters of a preset by their operators, and its default operator
pub record Preset : Type 0 where
  pub filters : List (String × Template)
  pub default : String

abbrev pub Presets : Type 0
Presets = Dict Preset

-- `FilterPreset.__init_subclass__`: the loop, with the operators as `dir` orders them
unfoldable pub collect_filters : List (String × Template) → Option String → Result (Option String)
collect_filters [] has_default = ok has_default
collect_filters ((operator, template) ∷ templates) has_default =
    let rest = collect_filters templates (some operator) in
    let same = collect_filters templates has_default in
    if not template.default
    then same
    else if is_some has_default
    then raised (Failure.bad_request "Q00.602")
    else rest

unfoldable pub define_preset : String → List (String × Template) → Presets → Result Presets
define_preset name templates presets =
    if is_some (get name presets)
    then raised (Failure.bad_request "Q00.601")
    else and_then (collect_filters templates none) λ has_default. elim has_default [
      | none ↦ raised (Failure.bad_request "Q00.603")
      | some default ↦ ok (put name (record { filters = templates; default = default }) presets)
    ]

unfoldable pub get_preset : String → Presets → Result Preset
get_preset name presets = require (Failure.bad_request "Q00.604") (get name presets)

-- `QueryField`, as far as a resource reads it
pub record QueryField : Type 0 where
  pub name : String
  pub title : String
  pub preset : String
  pub identifier : Bool
  pub sortable : Bool
  pub source : String
  pub default_filter : String
  pub weight : ℤ
  pub dtype : String
  pub excluded : Bool
  pub hidden : Bool

-- the column of a field; no source is an empty one
abbrev pub column : QueryField → String
column f = or_else f.source f.name

abbrev pub db_operator : String → Template → String
db_operator operator template = or_else (or_default template.operator "") operator

-- `Filter.associate`
abbrev pub associate : QueryField → String → Template → Filter
associate f operator template = record {
  selector = (column f, db_operator operator template);
  validator = template.validator;
}

-- `filters.update(FilterPreset.generate(..))`
unfoldable pub put_filter : String → String → Filter → FilterMap → FilterMap
put_filter field operator filter [] = ((field, operator), filter) ∷ []
put_filter field operator filter (((f, o), old) ∷ filters) =
    let rest = put_filter field operator filter filters in
    if str_eq f field && str_eq o operator then ((f, o), filter) ∷ filters else ((f, o), old) ∷ rest

unfoldable pub generate : QueryField → List (String × Template) → FilterMap → FilterMap
generate f [] filters = filters
generate f ((operator, template) ∷ templates) filters =
    generate f templates (put_filter f.name operator (associate f operator template) filters)

pub record FieldMeta : Type 0 where
  pub weight : ℤ
  pub name : String
  pub label : String
  pub noop : String
  pub sortable : Bool
  pub hidden : Bool
  pub dtype : String

-- the local variables of `initialize_resource`
pub record Build : Type 0 where
  pub idfield : Option String
  pub include_fields : List String
  pub excluded_fields : List String
  pub fieldmap : Dict String
  pub filters : FilterMap
  pub metas : List FieldMeta

abbrev pub map_source : QueryField → Dict String → Dict String
map_source f fieldmap = if str_eq f.source "" then fieldmap else put f.name f.source fieldmap

abbrev pub field_meta : QueryField → String → FieldMeta
field_meta f default = record {
  weight = f.weight;
  name = f.name;
  label = f.title;
  noop = or_else f.default_filter default;
  sortable = f.sortable;
  hidden = f.hidden;
  dtype = or_else f.dtype f.preset;
}

-- The error for a second identifier subscripts a `SimpleNamespace`, which is a TypeError.
unfoldable pub set_identifier : QueryField → Option String → Result (Option String)
set_identifier f idfield =
    if not f.identifier
    then ok idfield
    else elim idfield [ some other ↦ raised Failure.type_error | none ↦ ok (some f.name) ]

abbrev pub exclude_field : QueryField → Build → Build
exclude_field f b = record b {
  excluded_fields = b.excluded_fields ++ f.name ∷ [];
  fieldmap = map_source f b.fieldmap;
}

unfoldable pub include_field : Presets → QueryField → Build → Result Build
include_field presets f b = and_then (get_preset f.preset presets) λ preset.
    and_then (set_identifier f b.idfield) λ idfield. ok (record {
      idfield = idfield;
      include_fields = b.include_fields ++ f.name ∷ [];
      excluded_fields = b.excluded_fields;
      fieldmap = map_source f b.fieldmap;
      filters = generate f preset.filters b.filters;
      metas = b.metas ++ field_meta f preset.default ∷ [];
    })

-- one pass of the loop of `process_fields`
unfoldable pub process_field : Presets → QueryField → Build → Result Build
process_field presets f b = if f.excluded then ok (exclude_field f b) else include_field presets f b

unfoldable pub process_fields : Presets → List QueryField → Build → Result Build
process_fields presets [] b = ok b
process_fields presets (f ∷ fs) b =
    and_then (process_field presets f b) λ next. process_fields presets fs next

-- what a resource's class says of itself
pub record ResourceClass : Type 0 where
  pub fields : List QueryField
  pub meta_excluded : List String
  pub default_order : List String
  pub include_all : Bool
  pub allow_text_search : Bool
  pub policy_required : Bool
  pub initialized : Option String

-- the class after `initialize_resource`
pub record QueryResource : Type 0 where
  pub identifier : String
  pub idfield : String
  pub fields : List FieldMeta
  pub field_filters : FilterMap
  pub fieldmap : Dict String
  pub excluded_fields : List String
  pub included_fields : List String
  pub order : List String
  pub meta : ResourceClass

abbrev pub lighter : FieldMeta → FieldMeta → Bool
lighter a b = le_int a.weight b.weight

abbrev pub empty_build : Build
empty_build = record {
  idfield = none;
  include_fields = [];
  excluded_fields = [];
  fieldmap = [];
  filters = [];
  metas = [];
}

abbrev pub order_or_default : List String → List String
order_or_default [] = "id.desc" ∷ []
order_or_default (o ∷ os) = o ∷ os

abbrev pub made_resource : ResourceClass → String → String → Build → QueryResource
made_resource cls identifier idfield b = record {
  identifier = identifier;
  idfield = idfield;
  fields = sort lighter b.metas;
  field_filters = b.filters;
  fieldmap = b.fieldmap;
  excluded_fields = b.excluded_fields ++ cls.meta_excluded;
  included_fields = b.include_fields;
  order = order_or_default cls.default_order;
  meta = cls;
}

unfoldable pub finish_resource : ResourceClass → String → Build → Result QueryResource
finish_resource cls identifier b = elim b.idfield [
  | none ↦ raised (Failure.bad_request "Q00.703")
  | some idfield ↦ ok (made_resource cls identifier idfield b)
]

unfoldable pub initialize_resource : Presets → String → ResourceClass → Result QueryResource
initialize_resource presets identifier cls =
    if is_some cls.initialized
    then raised (Failure.bad_request "Q00.701")
    else and_then (process_fields presets cls.fields empty_build) (finish_resource cls identifier)
