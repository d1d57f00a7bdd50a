-- ===== src/Data/Chosen.antt =====
-- Which columns a select reads.
use fluvius_py.Common.{
  ◌≡◌, refl, sym, ◌∙◌, ap, subst, String, Bool, true, false, not, inl, inr, Bool-cases, List, [],
  ◌∷◌, ◌++◌, Option, none, some, str_eq, eq_iff, eq_refl, any, all, filter, or_default, arith,
}
use fluvius_py.Common.Dict.{Dict, get}
use fluvius_py.Exec.{Failure, ok, and_then_ok, ok_inj}
use fluvius_py.Query.Resources.{QueryResource}
use fluvius_py.Query.Statements.{process, process_query_statement}
use fluvius_py.Query.Select.{maps, process_select, process_sort}
use fluvius_py.Query.Manager.{
  FrontendQuery, BackendQuery, Manager, prepare_query, lookup_query_resource, validate_fe_query,
  authorize_by_policy, construct_backend_query,
}
use fluvius_py.Query.Guard.{validate_fe_query-same}
use fluvius_py.Data.Columns.{Schema, Column, partition, attribute, has_attribute, field}
use fluvius_py.Data.Clauses.{Sqlalchemy, where_clauses, sort_clauses}
use fluvius_py.Data.Statements.{
  Select, build_select, select_columns, chosen_names, included_names, build_join,
}

-- no name of another schema
abbrev pub ArePlain : List String → Type 0
ArePlain [] = Unit
ArePlain (k ∷ ks) = (partition k ≡ none) × ArePlain ks

-- The columns are those of the schema with these names.
abbrev pub ReadsOnly : Schema → List Column → List String → Type 0
ReadsOnly schema [] [] = Unit
ReadsOnly schema [] (k ∷ ks) = ⊥
ReadsOnly schema (c ∷ cs) [] = ⊥
ReadsOnly schema (c ∷ cs) (k ∷ ks) = (c.table ≡ schema.name) × (c.name ≡ k) × ReadsOnly schema cs ks

ArePlain-filter : (p : String → Bool) (ks : List String) → ArePlain ks → ArePlain (filter p ks)
ArePlain-filter p [] h = tt
ArePlain-filter p (k ∷ ks) (plain, rest) = elim (Bool-cases (p k)) [
  | inl keep ↦ rw keep (plain, ArePlain-filter p ks rest)
  | inr drop ↦ rw drop (ArePlain-filter p ks rest)
]

attribute_ok :
    (e : Failure) (schema : Schema) (name : String) (alias : Option String) {c : Column}
    → attribute e schema name alias ≡ ok c
    → (schema.name ≡ c.table) × (name ≡ c.name)
attribute_ok e schema name alias h = elim (Bool-cases (has_attribute schema name)) [
  | inl there ↦
      let same = ok_inj (rw there at h) in
      (ap (λ (x : Column). x.table) same, ap (λ (x : Column). x.name) same)
  | inr missing ↦ absurd (cc (rw missing at h))
]

module _ (registry : Dict Schema) (schema : Schema) where
  field_plain :
      (name : String) (alias : Option String) {c : Column}
      → partition name ≡ none
      → field registry schema name alias ≡ ok c
      → (schema.name ≡ c.table) × (name ≡ c.name)
  unfolding field
  field_plain name alias plain h = attribute_ok _ schema name alias (rw (field, plain) at h)

  select_columns-ReadsOnly :
      {Clause : Type 0} (sql : Sqlalchemy Clause) (alias : Dict String) (ks : List String)
      (cs : List Column)
      → ArePlain ks
      → select_columns sql registry schema alias ks ≡ ok cs
      → ReadsOnly schema cs ks
  unfolding select_columns
  select_columns-ReadsOnly sql alias [] [] plain h = tt
  select_columns-ReadsOnly sql alias [] (c ∷ cs) plain h = absurd (cc h)
  select_columns-ReadsOnly sql alias (k ∷ ks) cs (plain, rest) h =
      let (c, read, more) = and_then_ok (field registry schema k (get k alias)) _ h in
      let (ds, others, same) = and_then_ok (select_columns sql registry schema alias ks) _ more in
      let (table, name) = field_plain k (get k alias) plain read in
      subst (λ xs. ReadsOnly schema xs (k ∷ ks)) (ok_inj same)
        (sym table, sym name, select_columns-ReadsOnly sql alias ks ds rest others)

-- a name that is left out is not read
leaves_out :
    (schema : Schema) (cs : List Column) (exclude ks : List String) (name : String)
    → any (str_eq name) exclude ≡ true
    → ReadsOnly schema cs (filter (λ k. not (any (str_eq k) exclude)) ks)
    → all (λ (c : Column). not (str_eq c.name name)) cs ≡ true
leaves_out schema cs exclude [] name out reads = by_none cs reads
  where
    by_none :
        (xs : List Column)
        → ReadsOnly schema xs []
        → all (λ (c : Column). not (str_eq c.name name)) xs ≡ true
    by_none [] h = refl
    by_none (x ∷ xs) h = absurd h
leaves_out schema cs exclude (k ∷ ks) name out reads = elim (Bool-cases (any (str_eq k) exclude)) [
  | inl gone ↦ leaves_out schema cs exclude ks name out (rw gone at reads)
  | inr kept ↦
      by_columns cs kept (rw kept at reads) (λ ds. leaves_out schema ds exclude ks name out)
]
  where
    by_columns :
        (xs : List Column)
        → any (str_eq k) exclude ≡ false
        → ReadsOnly schema xs (k ∷ filter (λ j. not (any (str_eq j) exclude)) ks)
        → ((ds : List Column)
            → ReadsOnly schema ds (filter (λ j. not (any (str_eq j) exclude)) ks)
            → all (λ (c : Column). not (str_eq c.name name)) ds ≡ true)
        → all (λ (c : Column). not (str_eq c.name name)) xs ≡ true
    by_columns [] kept h rest = absurd h
    by_columns (x ∷ xs) kept (table, is_k, more) rest = elim (Bool-cases (str_eq x.name name)) [
      | inl same ↦ absurd (
          cc (
            sym kept
            ∙ ap (λ z. any (str_eq z) exclude) (sym is_k ∙ (eq_iff x.name name).0 same)
            ∙ out))
      | inr other ↦ rw other (rest xs more)
    ]

member_append :
    (name : String) (xs ys : List String)
    → any (str_eq name) ys ≡ true
    → any (str_eq name) (xs ++ ys) ≡ true
member_append name [] ys h = h
member_append name (x ∷ xs) ys h = ground (arith, member_append name xs ys)

member-maps :
    (fieldmap : Dict String) (f : String) (fs : List String)
    → any (str_eq f) fs ≡ true
    → any (str_eq (or_default (get f fieldmap) f)) (maps fieldmap fs) ≡ true
member-maps fieldmap f [] h = absurd (cc h)
member-maps fieldmap f (g ∷ gs) h = elim (Bool-cases (str_eq f g)) [
  | inl same ↦
      let f_is = (eq_iff f g).0 same in
      rw
        (ap (λ x. str_eq x (or_default (get g fieldmap) g))
            (ap (λ x. or_default (get x fieldmap) x) f_is)
          ∙ eq_refl _)
        refl
  | inr other ↦ ground (arith, member-maps fieldmap f gs (rw other at h))
]

-- the names that a query of the data layer leaves out
prepare_query-exclude :
    (m : Manager) (auth : Option String) (key : String) (item : Option String) (fq : FrontendQuery)
    (r : QueryResource) (q : BackendQuery)
    → get key m.resources ≡ some r
    → prepare_query m auth key item fq ≡ ok q
    → q.exclude ≡ maps r.fieldmap (fq.exclude ++ r.excluded_fields)
unfolding prepare_query lookup_query_resource construct_backend_query process_select
    validate_fe_query
prepare_query-exclude m auth key item fq r q found h =
    let (valid, checks, rest) = and_then_ok (validate_fe_query r fq) _ (rw found at h) in
    let (scope, granted, last) = and_then_ok (authorize_by_policy m auth r) _ rest in
    let (conditions, asked, more) =
      and_then_ok
        (process_query_statement r.field_filters
          (valid.user_query ∷ valid.path_query ∷ m.base_query auth valid.scope ∷ []))
        _ last in
    let (sorts, sorted, others) = and_then_ok (process_sort r valid.sort) _ more in
    let (limits, read, made) = and_then_ok (process [] scope) _ others in
    sym (ap (λ (x : BackendQuery). x.exclude) (ok_inj made))
    ∙ ap (λ (x : FrontendQuery). maps r.fieldmap (x.exclude ++ r.excluded_fields))
        (validate_fe_query-same r fq checks)

-- A query of a client that a manager makes into a query of the data layer, and this into a select, where
-- no included name and no attribute of the schema has a colon. The select reads, in order, the
-- included columns, or all columns where none is included, but those that are left out. The column of
-- a field that the resource excludes is not read, whatever the client asks to include.
pub build_select-excludes :
    {Clause : Type 0} (sql : Sqlalchemy Clause) (registry : Dict Schema) (schema : Schema)
    (m : Manager) (auth : Option String) (key : String) (item : Option String) (fq : FrontendQuery)
    (r : QueryResource) (q : BackendQuery) (s : Select Clause) (f : String)
    → get key m.resources ≡ some r
    → prepare_query m auth key item fq ≡ ok q
    → build_select sql registry schema q ≡ ok s
    → ArePlain schema.attributes
    → ArePlain q.include
    → any (str_eq f) r.excluded_fields ≡ true
    → ReadsOnly schema s.columns (chosen_names sql registry schema q)
      × (all (λ (c : Column). not (str_eq c.name (or_default (get f r.fieldmap) f))) s.columns
          ≡ true)
unfolding build_select
build_select-excludes sql registry schema m auth key item fq r q s f found prepared made attrs
      include_ out =
    let (cs, one, more) =
      and_then_ok (select_columns sql registry schema q.alias (chosen_names sql registry schema q))
        _ made in
    let (join, two, rest) = and_then_ok (build_join sql registry schema q.join) _ more in
    let (ks, three, last) = and_then_ok (where_clauses sql registry schema q) _ rest in
    let (order, four, same) = and_then_ok (sort_clauses sql registry schema q.sort) _ last in
    let names = included_names sql registry schema q.include in
    let reads =
      select_columns-ReadsOnly registry schema sql q.alias (chosen_names sql registry schema q) cs
        (ArePlain-filter _ names (by_include q.include include_)) one in
    let columns_are : cs ≡ s.columns = ap (λ (x : Select _). x.columns) (ok_inj same) in
    let excluded =
      ap (any (str_eq (or_default (get f r.fieldmap) f)))
        (prepare_query-exclude m auth key item fq r q found prepared)
      ∙ member-maps r.fieldmap f _ (member_append f fq.exclude r.excluded_fields out) in
    subst
      (λ xs.
        ReadsOnly schema xs (chosen_names sql registry schema q)
        × (all (λ (c : Column). not (str_eq c.name (or_default (get f r.fieldmap) f))) xs ≡ true))
      columns_are
      (reads, leaves_out schema cs q.exclude names (or_default (get f r.fieldmap) f) excluded reads)
  where
    by_include : (ks : List String) → ArePlain ks → ArePlain (included_names sql registry schema ks)
    by_include [] h = attrs
    by_include (k ∷ ks) h = h
