-- ===== src/Domain/Created.antt =====
-- The commands that a domain makes.
use fluvius_py.Common.{
  ◌≡◌, refl, sym, ◌∙◌, ap, subst, String, Bool, true, false, ◌⊎◌, inl, inr, Option, none, some,
  str_eq, Bool-cases,
}
use fluvius_py.Exec.{Failure, Result, ok, raised, and_then_ok, ok_inj}
use fluvius_py.Domain.Entities.{Uuid, Value, CommandBundle, AggregateRoot, CommandMeta}
use fluvius_py.Domain.Session.{Domain}
use fluvius_py.Domain.Process.{lookup_command}
use fluvius_py.Domain.Commands.{
  given_identifier, with_identifier, validate_aggroot, resource_allowed, root_checked,
  create_command,
}

-- The identifier is the given one, or a fresh one where none is given and the command makes its root.
abbrev pub IsIdentifier : Uuid → Option Uuid → Bool → Uuid → Type 0
IsIdentifier fresh given resource_init id =
    (given ≡ some id) ⊎ ((given ≡ none) × (resource_init ≡ true) × (id ≡ fresh))

checked_ok :
    (resource : String) (given sid iid : Option Uuid) {root : AggregateRoot}
    → with_identifier resource given sid iid ≡ ok root
    → (root.resource ≡ resource) × (str_eq resource "" ≡ false) × (given ≡ some root.identifier)
unfolding with_identifier
checked_ok resource given sid iid h = elim (Bool-cases (str_eq resource "")) [
  | inl e ↦ absurd (cc (rw e at h))
  | inr n ↦ by_given given (rw n at h) n
]
  where
    by_given :
        (given : Option Uuid) {root : AggregateRoot}
        → (elim given [
          | none ↦ raised (Failure.bad_request "D00.412")
          | some id ↦
              ok (record {
                resource = resource;
                identifier = id;
                domain_sid = sid;
                domain_iid = iid;
              })
        ])
          ≡ ok root
        → str_eq resource "" ≡ false
        → (root.resource ≡ resource) × (str_eq resource "" ≡ false) × (given ≡ some root.identifier)
    by_given none h n = absurd (cc h)
    by_given (some id) h n =
        let made = ok_inj h in
        (
          sym (ap (λ (r : AggregateRoot). r.resource) made),
          n,
          ap (λ (r : AggregateRoot). some r.identifier) made,
        )

given_identifier-IsIdentifier :
    (fresh : Uuid) (identifier : Option Uuid) (init : Bool) (id : Uuid)
    → given_identifier fresh identifier init ≡ some id
    → IsIdentifier fresh identifier init id
unfolding given_identifier
given_identifier-IsIdentifier fresh none true id h = inr (refl, refl, sym (cc h))
given_identifier-IsIdentifier fresh none false id h = inl h
given_identifier-IsIdentifier fresh (some old) true id h = inl h
given_identifier-IsIdentifier fresh (some old) false id h = inl h

root_checked_ok :
    (D : Domain) (key : String) (meta : CommandMeta) (given : AggregateRoot) {root : AggregateRoot}
    → root_checked D key meta given ≡ ok root
    → (given ≡ root) × (resource_allowed meta.resources given.resource ≡ true)
root_checked_ok D key meta given h =
    elim (Bool-cases (resource_allowed meta.resources given.resource)) [
      | inl e ↦ (ok_inj (rw e at h), e)
      | inr n ↦ absurd (cc (rw n at h))
    ]

-- A command that `create_command` makes, which it does only for a key that is registered: its root has
-- a resource, one that the command's class allows; its identifier is the given one, or a fresh
-- one where none is given and the class makes its root; it belongs to the domain and its
-- revision, and its data is what the class's model made of the given data.
pub create_command-valid :
    (D : Domain) (fresh fresh_id : Uuid) (create : String → Value → Result Value) (key : String)
    (cmd_data : Value) (resource : String) (identifier sid iid : Option Uuid) (c : CommandBundle)
    → create_command D fresh fresh_id create key cmd_data resource identifier sid iid ≡ ok c
    → (meta : CommandMeta) × (lookup_command D key ≡ ok meta)
      × (c.resource ≡ resource)
      × (str_eq resource "" ≡ false)
      × (resource_allowed meta.resources resource ≡ true)
      × IsIdentifier fresh identifier meta.resource_init c.identifier
      × (create key cmd_data ≡ ok c.payload)
      × (c.command ≡ key)
      × (c.domain ≡ D.namespace)
      × (c.revision ≡ D.revision)
unfolding create_command validate_aggroot
create_command-valid D fresh fresh_id create key cmd_data resource identifier sid iid c h =
    let (meta, known, rest) = and_then_ok (lookup_command D key) _ h in
    let (given, valid, rest2) =
      and_then_ok (validate_aggroot fresh resource identifier sid iid meta.resource_init) _ rest in
    let (root, allowed, rest3) = and_then_ok (root_checked D key meta given) _ rest2 in
    let (payload, made, last) = and_then_ok (create key cmd_data) _ rest3 in
    let same = ok_inj last in
    let (at, named, found) = checked_ok resource _ sid iid valid in
    let (kept, may) = root_checked_ok D key meta given allowed in
    let id : given.identifier ≡ c.identifier =
      ap (λ (r : AggregateRoot). r.identifier) kept
      ∙ ap (λ (b : CommandBundle). b.identifier) same in
    (
      meta,
      known,
      sym (
            ap (λ (r : AggregateRoot). r.resource) kept
            ∙ ap (λ (b : CommandBundle). b.resource) same)
          ∙ at,
      named,
      subst (λ r. resource_allowed meta.resources r ≡ true) at may,
      given_identifier-IsIdentifier fresh identifier meta.resource_init c.identifier
          (found ∙ ap some id),
      made ∙ ap (λ (b : CommandBundle). ok b.payload) same,
      sym (ap (λ (b : CommandBundle). b.command) same),
      sym (ap (λ (b : CommandBundle). b.domain) same),
      sym (ap (λ (b : CommandBundle). b.revision) same),
    )
