-- ===== src/Query/Initialized.antt =====
-- What `initialize_resource` guarantees.
use fluvius_py.Common.{
  ◌≡◌, ◌≢◌, refl, sym, ◌∙◌, ap, subst, String, Bool, true, false, not, ◌&&◌, ◌⊎◌, inl, inr, Option,
  none, some, List, [], ◌∷◌, ◌++◌, append-nil, append_assoc, filter, is_some, if◌then◌else◌,
}
use fluvius_py.Common.Int.{le_int_trans, le_int_total}
use fluvius_py.Common.Sorting.{InOrder, sort-InOrder}
use fluvius_py.Exec.{Failure, ok, raised, and_then, and_then_ok, ok_inj}
use fluvius_py.Query.Statements.{Filter}
use fluvius_py.Query.Resources.{
  Template, Presets, get_preset, QueryField, associate, Build, set_identifier, exclude_field,
  include_field, process_field, process_fields, ResourceClass, QueryResource, lighter, empty_build,
  made_resource, finish_resource, initialize_resource,
}
use fluvius_py.Query.Permitted.{Filters}
use fluvius_py.Query.Built.{
  included, is_identifier, is_excluded, names, Origin, AreFull, as_list, Grows, generate-Filters,
  generate-full, set_identifier_ok,
}

-- Either there is a filter or no field was included.
abbrev Ready : Build → Type 0
Ready b = (b.filters ≢ []) ⊎ (b.include_fields ≡ [])

longer :
    (p : QueryField → Bool) (f : QueryField) (fs : List QueryField) (old : List String)
    {next new : List String}
    → next ≡ old ++ names (filter p (f ∷ []))
    → new ≡ next ++ names (filter p fs)
    → new ≡ old ++ names (filter p (f ∷ fs))
longer p f fs old h k =
    k
    ∙ ap (λ xs. xs ++ names (filter p fs)) h
    ∙ append_assoc old (names (filter p (f ∷ []))) (names (filter p fs))
    ∙ ap (λ xs. old ++ xs) (joined (p f))
  where
    joined :
        (b : Bool)
        → names (if b then f ∷ [] else []) ++ names (filter p fs)
          ≡ names (if b then f ∷ filter p fs else filter p fs)
    joined true = refl
    joined false = refl

-- the fields whose filters are of the kind `Q`
abbrev All : (Filter → Type 0) → List QueryField → Type 0
All Q [] = Unit
All Q (f ∷ fs) =
    (f.excluded ≡ false → (operator : String) (t : Template) → Q (associate f operator t))
    × All Q fs

module _ (Q : Filter → Type 0) (presets : Presets) (full : AreFull presets) where
  abbrev Sound : Build → Type 0
  Sound b = Filters Q b.filters × Ready b

  process_field-Sound :
      (f : QueryField) (b c : Build)
      → (f.excluded ≡ false → (operator : String) (t : Template) → Q (associate f operator t))
      → Sound b
      → process_field presets f b ≡ ok c
      → Sound c × Grows (f ∷ []) b c
  unfolding process_field include_field
  process_field-Sound f b c q (kind, ready) h = by_flag f.excluded refl h
    where
      by_flag :
          (x : Bool)
          → f.excluded ≡ x
          → (if x then ok (exclude_field f b) else include_field presets f b) ≡ ok c
          → Sound c × Grows (f ∷ []) b c
      by_flag true out h =
          subst (λ x. Sound x × Grows (f ∷ []) b x) (ok_inj h)
            (
              (kind, ready),
              rw out
                  (sym (append-nil b.include_fields), sym (append-nil (as_list b.idfield)), refl),
            )
      by_flag false kept h =
          let (preset, found, more) = and_then_ok (get_preset f.preset presets) _ h in
          let (idfield, set, made) = and_then_ok (set_identifier f b.idfield) _ more in
          subst (λ x. Sound x × Grows (f ∷ []) b x) (ok_inj made)
            (
              (
                generate-Filters Q f preset.filters b.filters (q kept) kind,
                inl (generate-full f preset.filters b.filters (full f.preset preset found)),
              ),
              (
                rw kept refl,
                set_identifier_ok f b.idfield idfield kept set,
                rw kept (sym (append-nil b.excluded_fields)),
              ),
            )

  process_fields-Sound :
      (fs : List QueryField) (b c : Build)
      → All Q fs
      → Sound b
      → process_fields presets fs b ≡ ok c
      → Sound c × Grows fs b c
  unfolding process_fields
  process_fields-Sound [] b c q s h =
      subst (λ x. Sound x × Grows [] b x) (ok_inj h)
        (
          s,
          (
            sym (append-nil b.include_fields),
            sym (append-nil (as_list b.idfield)),
            sym (append-nil b.excluded_fields),
          ),
        )
  process_fields-Sound (f ∷ fs) b c (q, qs) s h =
      let (next, one, more) = and_then_ok (process_field presets f b) _ h in
      let (good, (some_in, some_id, some_out)) = process_field-Sound f b next q s one in
      let (done, (rest_in, rest_id, rest_out)) = process_fields-Sound fs next c qs good more in
      (
        done,
        (
          longer included f fs b.include_fields some_in rest_in,
          longer is_identifier f fs (as_list b.idfield) some_id rest_id,
          longer is_excluded f fs b.excluded_fields some_out rest_out,
        ),
      )

-- All fields are of the kind that `Origin` says.
weaken : (g : QueryField) (gs fs : List QueryField) → All (Origin gs) fs → All (Origin (g ∷ gs)) fs
weaken g gs [] h = tt
weaken g gs (f ∷ fs) (h, hs) = (λ kept operator t. inr (h kept operator t), weaken g gs fs hs)

own : (fs : List QueryField) → All (Origin fs) fs
own [] = tt
own (f ∷ fs) = (λ kept operator t. inl (kept, refl), weaken f fs fs (own fs))

no_identifier :
    (fs : List QueryField) → names (filter included fs) ≡ [] → names (filter is_identifier fs) ≡ []
no_identifier [] h = refl
no_identifier (f ∷ fs) h = by_flag f.excluded f.identifier (no_identifier fs) h
  where
    by_flag :
        (x y : Bool)
        → (names (filter included fs) ≡ [] → names (filter is_identifier fs) ≡ [])
        → names (if not x then f ∷ filter included fs else filter included fs) ≡ []
        → names (if not x && y then f ∷ filter is_identifier fs else filter is_identifier fs) ≡ []
    by_flag true y rest h = rest h
    by_flag false y rest h = absurd (cc h)

-- What the class of a resource makes of it. `included`, `is_identifier` and `Origin` go by the flag
-- `excluded` of each field; the names of `Meta.excluded_fields` are only added to the excluded ones.
abbrev pub Valid : QueryResource → Type 0
Valid r =
    Filters (Origin r.meta.fields) r.field_filters
    × (r.field_filters ≢ [])
    × (r.included_fields ≡ names (filter included r.meta.fields))
    × (names (filter is_identifier r.meta.fields) ≡ r.idfield ∷ [])
    × (r.excluded_fields ≡ names (filter is_excluded r.meta.fields) ++ r.meta.meta_excluded)
    × InOrder lighter r.fields

finish_resource-Valid :
    (identifier : String) (cls : ResourceClass) (b : Build) (r : QueryResource)
    → Filters (Origin cls.fields) b.filters × Ready b
    → Grows cls.fields empty_build b
    → finish_resource cls identifier b ≡ ok r
    → Valid r × (r.meta ≡ cls)
unfolding finish_resource
finish_resource-Valid identifier cls b r (kind, ready) (in_, id, out) h = by_id b.idfield refl h
  where
    nonempty :
        (x : String)
        → b.idfield ≡ some x
        → (b.filters ≢ []) ⊎ (b.include_fields ≡ [])
        → b.filters ≢ []
    nonempty x e (inl full) = full
    nonempty x e (inr empty) =
        absurd (cc (ap as_list e, id, no_identifier cls.fields (sym in_ ∙ empty)))

    by_id :
        (o : Option String)
        → b.idfield ≡ o
        → (elim o [
          | none ↦ raised (Failure.bad_request "Q00.703")
          | some idfield ↦ ok (made_resource cls identifier idfield b)
        ])
          ≡ ok r
        → Valid r × (r.meta ≡ cls)
    by_id none e h = absurd (cc h)
    by_id (some x) e h =
        subst (λ (x : QueryResource). Valid x × (x.meta ≡ cls)) (ok_inj h)
          (
            (
              kind,
              nonempty x e ready,
              in_,
              sym id ∙ ap as_list e,
              ap (λ xs. xs ++ cls.meta_excluded) out,
              sort-InOrder lighter (λ p q o. le_int_trans p.weight q.weight o.weight)
                  (λ p q. le_int_total p.weight q.weight) b.metas,
            ),
            refl,
          )

-- A resource that is made of a class, where every preset has a filter. The included fields are those
-- without the flag `excluded`, in their order, also those that `Meta.excluded_fields` names. Its
-- filters read only columns of these, and there is at least one. Exactly one of them is marked
-- as the identifier, and it is the id field. The excluded fields are those with the flag, then
-- the names of `Meta.excluded_fields`. The fields that it shows are in the order of weights.
pub initialize_resource-Valid :
    (presets : Presets) (identifier : String) (cls : ResourceClass) (r : QueryResource)
    → AreFull presets
    → initialize_resource presets identifier cls ≡ ok r
    → Valid r × (r.meta ≡ cls)
unfolding initialize_resource
initialize_resource-Valid presets identifier cls r full h = by_flag cls.initialized h
  where
    by_flag :
        (o : Option String)
        → (if is_some o
            then raised (Failure.bad_request "Q00.701")
            else and_then
                (process_fields presets cls.fields empty_build)
                (finish_resource cls identifier))
          ≡ ok r
        → Valid r × (r.meta ≡ cls)
    by_flag (some old) h = absurd (cc h)
    by_flag none h =
        let (b, built, finished) =
          and_then_ok (process_fields presets cls.fields empty_build) _ h in
        let (sound, grows) =
          process_fields-Sound (Origin cls.fields) presets full cls.fields empty_build b
            (own cls.fields) (tt, inr refl) built in
        finish_resource-Valid identifier cls b r sound grows finished
