-- ===== src/Helper/Lookup.antt =====
-- What a registry finds again, and what its history tells.
use fluvius_py.Common.{
  ◌≡◌, refl, sym, ◌∙◌, ap, subst, inl, inr, String, true, false, Option, none, some, List, [], ◌∷◌,
  ◌++◌, str_eq, is_some, Bool-cases,
}
use fluvius_py.Common.Dict.{Dict, get, put, get-put_self, put_new}
use fluvius_py.Helper.Registry.{
  RegistryError, Outcome, returned, failed, ClassObject, HistoryEntry, Registry, class_id,
  other_key, is_subclass, PostRegister, added, replaced, finish_register, key_for, register_at,
  register, get_item, keys,
}

unfoldable pub history_keys : List HistoryEntry → List String
history_keys [] = []
history_keys (e ∷ hist) = e.key ∷ history_keys hist

-- The history has the keys of the table, in their order.
abbrev pub IsRecorded : Registry → Type 0
IsRecorded r = keys r.lookup_table ≡ history_keys r.registry_hist

keys-append :
    {A : Type 0} (d : Dict A) (k : String) (a : A) → keys (d ++ (k, a) ∷ []) ≡ keys d ++ k ∷ []
unfolding keys
keys-append [] k a = refl
keys-append ((j, b) ∷ d) k a = ap (λ ks. j ∷ ks) (keys-append d k a)

history_keys-append :
    (hist : List HistoryEntry) (e : HistoryEntry)
    → history_keys (hist ++ e ∷ []) ≡ history_keys hist ++ e.key ∷ []
unfolding history_keys
history_keys-append [] e = refl
history_keys-append (x ∷ hist) e = ap (λ ks. x.key ∷ ks) (history_keys-append hist e)

none_of : {A : Type 0} (o : Option A) → is_some o ≡ false → o ≡ none
none_of none h = refl
none_of (some a) h = absurd (cc h)

added-IsRecorded :
    (cls : ClassObject) (key : String) (kwargs : Dict String) (r : Registry)
    → get key r.lookup_table ≡ none
    → IsRecorded r
    → IsRecorded (added cls key kwargs r)
added-IsRecorded cls key kwargs r free h =
    ap keys (put_new key cls r.lookup_table free)
    ∙ keys-append r.lookup_table key cls
    ∙ ap (λ ks. ks ++ key ∷ []) h
    ∙ sym (history_keys-append r.registry_hist _)

keys-put :
    {A : Type 0} (k : String) (a : A) (d : Dict A)
    → is_some (get k d) ≡ true
    → keys (put k a d) ≡ keys d
unfolding keys get put
keys-put k a [] h = absurd (cc h)
keys-put k a ((j, b) ∷ d) h = elim (Bool-cases (str_eq j k)) [
  | inl e ↦ rw e refl
  | inr e ↦ rw e (ap (λ ks. j ∷ ks) (keys-put k a d (rw e at h)))
]

replaced-IsRecorded :
    (cls : ClassObject) (key : String) (o : Outcome (Option ClassObject)) (r : Registry)
    → is_some (get key r.lookup_table) ≡ true
    → IsRecorded r
    → IsRecorded (replaced cls key o r).1
replaced-IsRecorded cls key (failed e) r known h = h
replaced-IsRecorded cls key (returned none) r known h = h
replaced-IsRecorded cls key (returned (some modified)) r known h =
    keys-put key modified r.lookup_table known ∙ h

finish-IsRecorded :
    (post : Option PostRegister) (cls : ClassObject) (key : String) (kwargs : Dict String)
    (r : Registry)
    → is_some (get key r.lookup_table) ≡ true
    → IsRecorded r
    → IsRecorded (finish_register post cls key kwargs r).1
finish-IsRecorded none cls key kwargs r known h = h
finish-IsRecorded (some hook) cls key kwargs r known h =
    replaced-IsRecorded cls key (hook cls key kwargs) r known h

-- a class that is returned is the one that stands in the table
abbrev Finds : String → Outcome ClassObject × Registry → Type 0
Finds key (returned c, r) = get key r.lookup_table ≡ some c
Finds key (failed e, r) = Unit {0}

replaced-Finds :
    (cls : ClassObject) (key : String) (o : Outcome (Option ClassObject)) (r : Registry)
    → get key r.lookup_table ≡ some cls
    → Finds key (replaced cls key o r)
replaced-Finds cls key (failed e) r h = tt
replaced-Finds cls key (returned none) r h = h
replaced-Finds cls key (returned (some modified)) r h = get-put_self key modified r.lookup_table

finish-Finds :
    (post : Option PostRegister) (cls : ClassObject) (key : String) (kwargs : Dict String)
    (r : Registry)
    → get key r.lookup_table ≡ some cls
    → Finds key (finish_register post cls key kwargs r)
finish-Finds none cls key kwargs r h = h
finish-Finds (some hook) cls key kwargs r h = replaced-Finds cls key (hook cls key kwargs) r h

module _ (base : String) (camel_to_lower : String → String)
    (post_register : Option PostRegister) where
  register_at-holds :
      (key : String) (kwargs : Dict String) (cls : ClassObject) (r : Registry)
      → Finds key (register_at base camel_to_lower post_register key kwargs cls r)
        × (IsRecorded r
            → IsRecorded (register_at base camel_to_lower post_register key kwargs cls r).1)
  unfolding register_at
  register_at-holds key kwargs cls r =
      elim (Bool-cases (other_key (class_id cls.mro r.clsids) key)) [
        | inl other ↦ rw other (tt, λ h. h)
        | inr same ↦ elim (Bool-cases (is_some (get key r.lookup_table))) [
          | inl taken ↦ rw (same, taken) (tt, λ h. h)
          | inr free ↦ elim (Bool-cases (is_subclass base cls)) [
            | inl sub ↦
                let found = get-put_self key cls r.lookup_table in
                rw (same, free, sub)
                  (
                    finish-Finds post_register cls key kwargs (added cls key kwargs r) found,
                    λ h.
                        finish-IsRecorded post_register cls key kwargs (added cls key kwargs r)
                          (ap is_some found)
                          (added-IsRecorded cls key kwargs r (none_of (get key r.lookup_table) free)
                            h),
                  )
            | inr not_sub ↦ rw (same, free, not_sub) (tt, λ h. h)
          ]
        ]
      ]

-- A class that `register` returns, also one that the function called after registering has put in its
-- place, is the one that the registry then gives for the key.
pub register-get_item :
    (base : String) (camel_to_lower : String → String) (post_register : Option PostRegister)
    (key : Option String) (kwargs : Dict String) (cls c : ClassObject) (r r' : Registry)
    → register base camel_to_lower post_register key kwargs cls r ≡ (returned c, r')
    → get_item base camel_to_lower post_register (key_for camel_to_lower key cls) r' ≡ returned c
unfolding register get_item
register-get_item base camel_to_lower post_register key kwargs cls c r r' h =
    let p : get (key_for camel_to_lower key cls) r'.lookup_table ≡ some c =
      subst (Finds (key_for camel_to_lower key cls)) h
        (register_at-holds base camel_to_lower post_register (key_for camel_to_lower key cls) kwargs
          cls r).0 in
    ap
      (λ o. elim o [
        | none ↦ failed (RegistryError.not_found "H00.401")
        | some found ↦ returned found
      ])
      p

-- The history of a registry has the keys of its table, in the order of registering; every call of
-- `register` keeps this so, whether it returns or raises.
pub register-IsRecorded :
    (base : String) (camel_to_lower : String → String) (post_register : Option PostRegister)
    (key : Option String) (kwargs : Dict String) (cls : ClassObject) (r : Registry)
    → IsRecorded r
    → IsRecorded (register base camel_to_lower post_register key kwargs cls r).1
unfolding register
register-IsRecorded base camel_to_lower post_register key kwargs cls r h =
    (register_at-holds base camel_to_lower post_register (key_for camel_to_lower key cls) kwargs cls
        r).1
      h
