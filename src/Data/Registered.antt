-- ===== src/Data/Registered.antt =====
-- The registry of models.
use fluvius_py.Common.{
  ◌≡◌, refl, sym, ◌∙◌, ap, String, Bool, true, false, inl, inr, Bool-cases, List, [], ◌∷◌, Option,
  none, some, str_eq, eq_iff, is_some, ◌⊎◌, ◌&&◌, not, or_default,
}
use fluvius_py.Common.Dict.{Dict, get, put, get-put_eq, get-put_ne, get-put_self}
use fluvius_py.Exec.{Failure, ok, raised, require}
use fluvius_py.Data.Models.{
  Models, is_taken, register_model, setup_model, Record, lookup_model, lookup_record_model,
}

-- A name's class is registered under this name. A name that a class is registered under has a class,
-- and a flag that says whether it was generated. The class need not be the same one: a class whose
-- generated model lost its name to another class stays registered under it.
abbrev pub IsConsistent : Models → Type 0
IsConsistent m =
    ((model_name model_cls : String)
      → get model_name m.models ≡ some model_cls
      → get model_cls m.resources ≡ some model_name)
    × ((model_name model_cls : String)
        → get model_cls m.resources ≡ some model_name
        → is_some (get model_name m.models) ≡ true)
    × ((model_name : String) → is_some (get model_name m.models) ≡ is_some (get model_name m.auto))

-- The class is new, and the name is new or that of a generated model.
abbrev pub IsFree : String → String → Models → Type 0
IsFree model_name model_cls m =
    (get model_cls m.resources ≡ none)
    × ((get model_name m.models ≡ none) ⊎ (get model_name m.auto ≡ some true))

-- The class is there, or the name is there with a model that was not generated.
abbrev pub IsRefused : String → String → Models → Type 0
IsRefused model_name model_cls m =
    (is_some (get model_cls m.resources) ≡ true)
    ⊎ ((is_some (get model_name m.models) ≡ true) × (get model_name m.auto ≡ some false))

-- Each has the other, and all other names and classes have what they had.
abbrev pub Registers : String → String → Models → Models → Type 0
Registers model_name model_cls m n =
    (lookup_model n model_name ≡ ok model_cls)
    × ((r : Record) → r.model_cls ≡ model_cls → lookup_record_model n r ≡ ok model_name)
    × ((name : String) → str_eq model_name name ≡ false → get name n.models ≡ get name m.models)
    × ((cls : String) → str_eq model_cls cls ≡ false → get cls n.resources ≡ get cls m.resources)

some_inj : {A : Type 0} {a b : A} → some a ≡ some b → a ≡ b
some_inj h = cc h

is_some-none : {A : Type 0} (o : Option A) → is_some o ≡ false → o ≡ none
is_some-none none e = refl
is_some-none (some x) e = absurd (cc e)

abbrev made : String → String → Bool → Models → Models
made model_name model_cls is_generated m = record {
  models = put model_name model_cls m.models;
  resources = put model_cls model_name m.resources;
  auto = put model_name is_generated m.auto;
}

is_some-put :
    {A : Type 0} (k q : String) (v : A) (d : Dict A)
    → is_some (get q d) ≡ true
    → is_some (get q (put k v d)) ≡ true
is_some-put k q v d h = elim (Bool-cases (str_eq k q)) [
  | inl same ↦ ap is_some (get-put_eq k q v d same)
  | inr other ↦ ap is_some (get-put_ne k q v d other) ∙ h
]

module _ (model_name model_cls : String) (is_generated : Bool) (m : Models) where
  made-IsConsistent :
      IsConsistent m
      → get model_cls m.resources ≡ none
      → IsConsistent (made model_name model_cls is_generated m)
  made-IsConsistent (forth, back, flags) new = (by_name, by_cls, by_flag)
    where
      by_name :
          (name cls : String)
          → get name (put model_name model_cls m.models) ≡ some cls
          → get cls (put model_cls model_name m.resources) ≡ some name
      by_name name cls known = elim (Bool-cases (str_eq model_name name)) [
        | inl same ↦
            let cls_is : model_cls ≡ cls =
              some_inj (sym (get-put_eq model_name name model_cls m.models same) ∙ known) in
            ap (λ c. get c (put model_cls model_name m.resources)) (sym cls_is)
            ∙ get-put_self model_cls model_name m.resources
            ∙ ap some ((eq_iff model_name name).0 same)
        | inr other ↦
            let before =
              forth name cls (sym (get-put_ne model_name name model_cls m.models other) ∙ known) in
            elim (Bool-cases (str_eq model_cls cls)) [
              | inl same ↦ absurd (
                  cc (
                    sym new ∙ ap (λ c. get c m.resources) ((eq_iff model_cls cls).0 same) ∙ before))
              | inr apart ↦ get-put_ne model_cls cls model_name m.resources apart ∙ before
            ]
      ]

      by_cls :
          (name cls : String)
          → get cls (put model_cls model_name m.resources) ≡ some name
          → is_some (get name (put model_name model_cls m.models)) ≡ true
      by_cls name cls known = elim (Bool-cases (str_eq model_cls cls)) [
        | inl same ↦
            let name_is : model_name ≡ name =
              some_inj (sym (get-put_eq model_cls cls model_name m.resources same) ∙ known) in
            ap (λ k. is_some (get k (put model_name model_cls m.models))) (sym name_is)
            ∙ ap is_some (get-put_self model_name model_cls m.models)
        | inr other ↦
            is_some-put model_name name model_cls m.models
              (back name cls (sym (get-put_ne model_cls cls model_name m.resources other) ∙ known))
      ]

      by_flag :
          (name : String)
          → is_some (get name (put model_name model_cls m.models))
            ≡ is_some (get name (put model_name is_generated m.auto))
      by_flag name = elim (Bool-cases (str_eq model_name name)) [
        | inl same ↦
            ap is_some (get-put_eq model_name name model_cls m.models same)
            ∙ sym (ap is_some (get-put_eq model_name name is_generated m.auto same))
        | inr other ↦
            ap is_some (get-put_ne model_name name model_cls m.models other)
            ∙ flags name
            ∙ sym (ap is_some (get-put_ne model_name name is_generated m.auto other))
      ]

  made-Registers : Registers model_name model_cls m (made model_name model_cls is_generated m)
  unfolding lookup_model lookup_record_model
  made-Registers = (
    ap (require (Failure.key_error model_name)) (get-put_self model_name model_cls m.models),
    λ r is_cls.
        ap (λ c. require (Failure.key_error c) (get c (put model_cls model_name m.resources)))
          is_cls
        ∙ ap (require (Failure.key_error model_cls))
            (get-put_self model_cls model_name m.resources),
    λ name other. get-put_ne model_name name model_cls m.models other,
    λ cls other. get-put_ne model_cls cls model_name m.resources other,
  )

  -- what the test of the name says
  free_name :
      is_some (get model_name m.models) ≡ is_some (get model_name m.auto)
      → is_taken model_name m ≡ false
      → (get model_name m.models ≡ none) ⊎ (get model_name m.auto ≡ some true)
  free_name flagged free = by_flag (get model_name m.models) (get model_name m.auto) flagged free
    where
      by_flag :
          (o : Option String) (x : Option Bool)
          → is_some o ≡ is_some x
          → is_some o && not (or_default x false) ≡ false
          → (o ≡ none) ⊎ (x ≡ some true)
      by_flag none x same h = inl refl
      by_flag (some c) (some true) same h = inr refl
      by_flag (some c) (some false) same h = absurd (cc h)
      by_flag (some c) none same h = absurd (cc same)

  taken_name :
      is_some (get model_name m.models) ≡ is_some (get model_name m.auto)
      → is_taken model_name m ≡ true
      → (is_some (get model_name m.models) ≡ true) × (get model_name m.auto ≡ some false)
  taken_name flagged taken = by_flag (get model_name m.models) (get model_name m.auto) flagged taken
    where
      by_flag :
          (o : Option String) (x : Option Bool)
          → is_some o ≡ is_some x
          → is_some o && not (or_default x false) ≡ true
          → (is_some o ≡ true) × (x ≡ some false)
      by_flag none x same h = absurd (cc h)
      by_flag (some c) (some true) same h = absurd (cc h)
      by_flag (some c) (some false) same h = (refl, refl)
      by_flag (some c) none same h = absurd (cc same)

-- A registration in consistent tables is refused just where the class is registered or the name has a
-- model that was not generated. Otherwise it keeps the tables consistent; after it the name has
-- the class, a record of the class is looked up under the name, and every other name and every
-- other class has what it had.
pub register_model-IsConsistent :
    (model_name model_cls : String) (is_generated : Bool) (m : Models)
    → IsConsistent m
    → ((register_model model_name model_cls is_generated m
          ≡ raised (Failure.user_error "ResourceAlreadyRegistered"))
        × IsRefused model_name model_cls m)
      ⊎ ((n : Models) × (register_model model_name model_cls is_generated m ≡ ok n)
          × IsFree model_name model_cls m
          × IsConsistent n
          × Registers model_name model_cls m n)
unfolding register_model
register_model-IsConsistent model_name model_cls is_generated m consistent =
    elim (Bool-cases (is_some (get model_cls m.resources))) [
      | inl there ↦ inl (rw there refl, inl there)
      | inr apart ↦ elim (Bool-cases (is_taken model_name m)) [
        | inl taken ↦ inl (
          rw (apart, taken) refl,
          inr (taken_name model_name model_cls is_generated m (consistent.2 model_name) taken),
        )
        | inr free ↦
            let new = is_some-none (get model_cls m.resources) apart in
            inr (
              made model_name model_cls is_generated m,
              rw (apart, free) refl,
              (new, free_name model_name model_cls is_generated m (consistent.2 model_name) free),
              made-IsConsistent model_name model_cls is_generated m consistent new,
              made-Registers model_name model_cls is_generated m,
            )
      ]
    ]

-- The schemas of a driver keep the tables consistent.
pub setup_model-IsConsistent :
    (schemas : List (String × String)) (m : Models)
    → IsConsistent m
    → IsConsistent (setup_model schemas m)
unfolding setup_model
setup_model-IsConsistent [] m h = h
setup_model-IsConsistent ((model_name, data_schema) ∷ schemas) m h =
    setup_model-IsConsistent schemas _
      (elim (register_model-IsConsistent model_name data_schema true m h) [
        | inl (refused, why) ↦ rw refused h
        | inr (n, made_is, free, good, registers) ↦ rw made_is good
      ])
