-- ===== src/Helper/Registry.antt =====
-- helper/registry.py: registries of classes by a key.
use fluvius_py.Common.{
  String, Bool, false, not, Option, none, some, List, [], ◌∷◌, ◌++◌, str_eq, any, is_some,
  or_default, if◌then◌else◌,
}
use fluvius_py.Common.Dict.{Dict, get, put}

pub data RegistryError : Type 0 where
  bad_request : String → RegistryError
  not_found : String → RegistryError
  key_error : String → RegistryError
  hook_error : String → RegistryError

pub data Outcome (A : Type 0) : Type 0 where
  returned : A → Outcome A
  failed : RegistryError → Outcome A

-- A class as an object: `path` tells classes apart, and `mro` has the paths of the class itself and of
-- the classes it inherits from, in the order of the search for an attribute.
pub record ClassObject : Type 0 where
  pub path : String
  pub name : String
  pub mro : List String

pub record HistoryEntry : Type 0 where
  pub cls : ClassObject
  pub key : String
  pub kwargs : Dict String

-- The registry's two variables, and the attribute `__clsid__` of the classes that have one of their own.
pub record Registry : Type 0 where
  pub lookup_table : Dict ClassObject
  pub registry_hist : List HistoryEntry
  pub clsids : Dict String

-- `getattr(cls, '__clsid__', None)`
unfoldable pub class_id : List String → Dict String → Option String
class_id [] clsids = none
class_id (path ∷ mro) clsids =
    let inherited = class_id mro clsids in
    elim (get path clsids) [ none ↦ inherited | some key ↦ some key ]

abbrev pub other_key : Option String → String → Bool
other_key none key = false
other_key (some old) key = not (str_eq old key)

abbrev pub is_subclass : String → ClassObject → Bool
is_subclass base cls = any (str_eq base) cls.mro

-- `_key`: the key that is given, or the class's name in lower case
abbrev pub key_for : (String → String) → Option String → ClassObject → String
key_for camel_to_lower key cls = or_default key (camel_to_lower cls.name)

abbrev pub PostRegister : Type 0
PostRegister = ClassObject → String → Dict String → Outcome (Option ClassObject)

abbrev pub added : ClassObject → String → Dict String → Registry → Registry
added cls key kwargs r = record {
  lookup_table = put key cls r.lookup_table;
  registry_hist = r.registry_hist ++ record { cls = cls; key = key; kwargs = kwargs } ∷ [];
  clsids = put cls.path key r.clsids;
}

-- what the class is replaced by, with the registry after the class was added
abbrev pub replaced :
    ClassObject → String → Outcome (Option ClassObject) → Registry → Outcome ClassObject × Registry
replaced cls key (failed e) r = (failed e, r)
replaced cls key (returned none) r = (returned cls, r)
replaced cls key (returned (some modified)) r =
    (returned modified, record r { lookup_table = put key modified r.lookup_table })

abbrev pub finish_register :
    Option PostRegister
    → ClassObject
    → String
    → Dict String
    → Registry
    → Outcome ClassObject × Registry
finish_register none cls key kwargs r = (returned cls, r)
finish_register (some hook) cls key kwargs r = replaced cls key (hook cls key kwargs) r

-- The registry of the subclasses of `base`. The function that spells a class's name as a key and the
-- function that is called after registering are arguments.
module _ (base : String) (camel_to_lower : String → String)
    (post_register : Option PostRegister) where
  -- `_register(key, **kwargs)` applied to a class, with the key found
  unfoldable pub register_at :
      String → Dict String → ClassObject → Registry → Outcome ClassObject × Registry
  register_at key kwargs cls r =
      if other_key (class_id cls.mro r.clsids) key
      then (failed (RegistryError.bad_request "H00.301"), r)
      else if is_some (get key r.lookup_table)
      then (failed (RegistryError.bad_request "H00.302"), r)
      else if is_subclass base cls
      then finish_register post_register cls key kwargs (added cls key kwargs r)
      else (failed (RegistryError.bad_request "H00.303"), r)

  unfoldable pub register :
      Option String → Dict String → ClassObject → Registry → Outcome ClassObject × Registry
  register key kwargs cls = register_at (key_for camel_to_lower key cls) kwargs cls

  -- `_get_item` of a key
  unfoldable pub get_item : String → Registry → Outcome ClassObject
  get_item key r = elim (get key r.lookup_table) [
    | none ↦ failed (RegistryError.not_found "H00.401")
    | some cls ↦ returned cls
  ]

  -- `if key and lookup_table[key] is key_or_class`
  abbrev pub check_class : ClassObject → Option String → Registry → Outcome ClassObject
  check_class cls none r = failed (RegistryError.not_found "H00.401")
  check_class cls (some key) r =
      if str_eq key ""
      then failed (RegistryError.not_found "H00.401")
      else elim (get key r.lookup_table) [
        | none ↦ failed (RegistryError.key_error key)
        | some found ↦
            if str_eq found.path cls.path
            then returned cls
            else failed (RegistryError.not_found "H00.401")
      ]

  -- `_get_item` of a class, which is no key of the table
  unfoldable pub get_class : ClassObject → Registry → Outcome ClassObject
  get_class cls r =
      if is_subclass base cls
      then check_class cls (class_id cls.mro r.clsids) r
      else failed (RegistryError.not_found "H00.401")

unfoldable pub keys : {A : Type 0} → Dict A → List String
keys [] = []
keys ((k, a) ∷ d) = k ∷ keys d

unfoldable pub get_history : Registry → List HistoryEntry
get_history r = r.registry_hist
