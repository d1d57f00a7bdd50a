-- ===== src/Query/Built.antt =====
-- What a resource is made of after `initialize_resource`.
use fluvius_py.Common.{
  ◌≡◌, ◌≢◌, refl, sym, ◌∙◌, ap, String, Bool, false, not, ◌&&◌, ◌⊎◌, inl, inr, Bool-cases, Option,
  none, some, List, [], ◌∷◌, ◌++◌, append-nil, str_eq, filter,
}
use fluvius_py.Exec.{Failure, ok, raised, ok_inj}
use fluvius_py.Query.Statements.{Filter, FilterMap}
use fluvius_py.Query.Resources.{
  Template, Preset, Presets, get_preset, QueryField, column, associate, put_filter, generate, Build,
  set_identifier,
}
use fluvius_py.Query.Permitted.{Filters}

abbrev pub included : QueryField → Bool
included f = not f.excluded

abbrev pub is_identifier : QueryField → Bool
is_identifier f = not f.excluded && f.identifier

abbrev pub is_excluded : QueryField → Bool
is_excluded f = f.excluded

abbrev pub names : List QueryField → List String
names [] = []
names (f ∷ fs) = f.name ∷ names fs

-- The filter reads the column of one of the fields, one without the flag `excluded`. The names of
-- `Meta.excluded_fields` are not looked at.
abbrev pub Origin : List QueryField → Filter → Type 0
Origin [] filter = ⊥
Origin (f ∷ fs) filter = ((f.excluded ≡ false) × (filter.selector.0 ≡ column f)) ⊎ Origin fs filter

-- Every preset has a filter.
abbrev pub AreFull : Presets → Type 0
AreFull presets = (name : String) (p : Preset) → get_preset name presets ≡ ok p → p.filters ≢ []

abbrev pub as_list : Option String → List String
as_list none = []
as_list (some name) = name ∷ []

module _ (Q : Filter → Type 0) where
  put_filter-Filters :
      (field operator : String) (new : Filter) (filters : FilterMap)
      → Q new
      → Filters Q filters
      → Filters Q (put_filter field operator new filters)
  unfolding put_filter
  put_filter-Filters field operator new [] q h = (q, tt)
  put_filter-Filters field operator new (((f, o), old) ∷ filters) q (h, hs) =
      elim (Bool-cases (str_eq f field && str_eq o operator)) [
        | inl same ↦ rw same (q, hs)
        | inr other ↦ rw other (h, put_filter-Filters field operator new filters q hs)
      ]

  pub generate-Filters :
      (f : QueryField) (templates : List (String × Template)) (filters : FilterMap)
      → ((operator : String) (t : Template) → Q (associate f operator t))
      → Filters Q filters
      → Filters Q (generate f templates filters)
  unfolding generate
  generate-Filters f [] filters q h = h
  generate-Filters f ((operator, t) ∷ templates) filters q h =
      generate-Filters f templates (put_filter f.name operator (associate f operator t) filters) q
        (put_filter-Filters f.name operator (associate f operator t) filters (q operator t) h)

put_filter-full :
    (field operator : String) (new : Filter) (filters : FilterMap)
    → put_filter field operator new filters ≢ []
unfolding put_filter
put_filter-full field operator new [] e = cc e
put_filter-full field operator new (((f, o), old) ∷ filters) e =
    elim (Bool-cases (str_eq f field && str_eq o operator)) [
      | inl same ↦ cc (rw same at e)
      | inr other ↦ cc (rw other at e)
    ]

generate-full_more :
    (f : QueryField) (templates : List (String × Template)) (filters : FilterMap)
    → filters ≢ []
    → generate f templates filters ≢ []
unfolding generate
generate-full_more f [] filters h = h
generate-full_more f ((operator, t) ∷ templates) filters h =
    generate-full_more f templates _
      (put_filter-full f.name operator (associate f operator t) filters)

pub generate-full :
    (f : QueryField) (templates : List (String × Template)) (filters : FilterMap)
    → templates ≢ []
    → generate f templates filters ≢ []
unfolding generate
generate-full f [] filters h = absurd (h refl)
generate-full f ((operator, t) ∷ templates) filters h =
    generate-full_more f templates _
      (put_filter-full f.name operator (associate f operator t) filters)

-- What the loop over `fs` adds to a build.
abbrev pub Grows : List QueryField → Build → Build → Type 0
Grows fs b c =
    (c.include_fields ≡ b.include_fields ++ names (filter included fs))
    × (as_list c.idfield ≡ as_list b.idfield ++ names (filter is_identifier fs))
    × (c.excluded_fields ≡ b.excluded_fields ++ names (filter is_excluded fs))

pub set_identifier_ok :
    (f : QueryField) (old new : Option String)
    → f.excluded ≡ false
    → set_identifier f old ≡ ok new
    → as_list new ≡ as_list old ++ names (filter is_identifier (f ∷ []))
unfolding set_identifier
set_identifier_ok f old new kept h = elim (Bool-cases f.identifier) [
  | inr other ↦
      rw (kept, other) (ap as_list (sym (ok_inj (rw other at h))) ∙ sym (append-nil (as_list old)))
  | inl mine ↦ rw (kept, mine) (by_old old (rw mine at h))
]
  where
    by_old :
        (o : Option String)
        → (elim o [ some other ↦ raised Failure.type_error | none ↦ ok (some f.name) ]) ≡ ok new
        → as_list new ≡ as_list o ++ f.name ∷ []
    by_old none h = ap as_list (sym (ok_inj h))
    by_old (some other) h = absurd (cc h)
