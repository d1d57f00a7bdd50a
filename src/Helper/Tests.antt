-- ===== src/Helper/Tests.antt =====
-- The theorems on registries at a small one, and tests of the helpers.
use fluvius_py.Common.{List, ◌≡◌, refl, false, true, String, Option, none, some, [], ◌∷◌}
use fluvius_py.Common.Dict.{get}
use fluvius_py.Helper.Registry.{
  failed, RegistryError, returned, ClassObject, Registry, PostRegister, class_id, register,
  register_at, get_item, keys,
}
use fluvius_py.Common.Sorting.{sort, insert}
use fluvius_py.Helper.Merging.{merge_order-total}
use fluvius_py.Helper.Merge.{insert_at, set_at, merge_items, merge_order}
use fluvius_py.Helper.Values.{index_of, distinct, unique, unique_from, validate_lower_dash}
use fluvius_py.Helper.Lookup.{IsRecorded, history_keys, register-get_item, register-IsRecorded}

abbrev local_driver : ClassObject
local_driver = record {
  path = "media.LocalDriver";
  name = "LocalDriver";
  mro = "media.LocalDriver" ∷ "media.Driver" ∷ [];
}

abbrev traced_driver : ClassObject
traced_driver = record {
  path = "media.Traced";
  name = "Traced";
  mro = "media.Traced" ∷ "media.LocalDriver" ∷ "media.Driver" ∷ [];
}

abbrev spell : String → String
spell name = "local-driver"

abbrev trace : Option PostRegister
trace = some (λ cls key kwargs. returned (some traced_driver))

abbrev empty_registry : Registry
empty_registry = record { lookup_table = []; registry_hist = []; clsids = [] }

register-get_item_example :
    get_item "media.Driver" spell trace "local-driver"
      (register "media.Driver" spell trace none [] local_driver empty_registry).1
    ≡ returned traced_driver
unfolding register register_at class_id get
register-get_item_example =
    register-get_item "media.Driver" spell trace none [] local_driver traced_driver empty_registry
      (register "media.Driver" spell trace none [] local_driver empty_registry).1 refl

register-IsRecorded_example :
    IsRecorded (register "media.Driver" spell trace (some "local") [] local_driver empty_registry).1
unfolding keys history_keys
register-IsRecorded_example =
    register-IsRecorded "media.Driver" spell trace (some "local") [] local_driver empty_registry
      refl

-- the first appearance stays
unique_order : unique ("b" ∷ "a" ∷ "b" ∷ "c" ∷ "a" ∷ []) ≡ "b" ∷ "a" ∷ "c" ∷ []
unfolding unique unique_from
unique_order = refl

lower_dash_ok : validate_lower_dash (λ n. false) "local-driver2" ≡ returned "local-driver2"
unfolding validate_lower_dash
lower_dash_ok = refl

lower_dash_bad :
    validate_lower_dash (λ n. false) "local-" ≡ failed (RegistryError.bad_request "H00.101")
unfolding validate_lower_dash
lower_dash_bad = refl

-- the example of the docstring
merge_documented :
    merge_order
      ("a" ∷ "b" ∷ "c" ∷ "d" ∷ "e" ∷ "e" ∷ [])
      ("t" ∷ "y" ∷ "c" ∷ "b" ∷ "x" ∷ "y" ∷ "e" ∷ "z" ∷ [])
      false
    ≡ some ("t" ∷ "y" ∷ "a" ∷ "c" ∷ "b" ∷ "x" ∷ "d" ∷ "e" ∷ "z" ∷ [])
unfolding merge_order merge_items insert_at set_at unique unique_from index_of sort insert
merge_documented = refl

-- An update that repeats an item takes the place of another, which is lost.
merge_loses : merge_order ("a" ∷ "b" ∷ []) ("b" ∷ "a" ∷ "a" ∷ []) false ≡ some ("a" ∷ [])
unfolding merge_order merge_items insert_at set_at unique unique_from index_of sort insert
merge_loses = refl

merge_order-total_example :
    (merged : List String) × (merge_order ("a" ∷ "b" ∷ []) ("b" ∷ "c" ∷ "a" ∷ []) true
      ≡ some merged)
    × (distinct merged ≡ true)
merge_order-total_example = merge_order-total ("a" ∷ "b" ∷ []) ("b" ∷ "c" ∷ "a" ∷ []) true
