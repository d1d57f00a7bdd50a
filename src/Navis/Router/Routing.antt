-- ===== src/Navis/Router/Routing.antt =====
-- Which handlers an event is routed to, and which connections are refused.
use fluvius_py.Common.{
  ℕ, suc, ◌+◌, ◌≡◌, refl, ◌∙◌, ap, inl, inr, String, Bool, true, false, not, ◌&&◌, ◌||◌, Option,
  none, some, List, [], ◌∷◌, all, filter, if◌then◌else◌, is_some, or_default, str_eq, leb, arith,
  Bool-cases,
}
use mathlib.Core.List.{map}
use fluvius_py.Common.Dict.{get}
use fluvius_py.Navis.Data.{Uuid}
use fluvius_py.Exec.{Failure, Result, ok, raised}
use fluvius_py.Navis.Runner.Script.{Hook}
use fluvius_py.Navis.Router.Defs.{
  EventData, RouteData, WorkflowRoutingEntry, WorkflowTrigger, WorkflowSelector, Table, Routed,
  Connected, route_entries, route_event, other_workflow, other_resource, option_eq, stopped, truthy,
  either_key, connect_events,
}
use fluvius_py.Navis.Router.Order.{entries_of}

-- An entry takes an event if it is of the selector's workflow, and its routing function finds the
-- selector's resource.
abbrev pub takes_data : Option WorkflowSelector → Result (Option RouteData) → Bool
takes_data selector (ok (some d)) = not (other_resource selector d)
takes_data selector _ = false

abbrev pub takes : Option WorkflowSelector → EventData → WorkflowRoutingEntry → Bool
takes selector data_ e =
    not (other_workflow selector e) && takes_data selector (e.routing_func data_)

abbrev pub Target : Type 0
Target = String × Option String × (EventData → Hook)

abbrev pub entry_target : WorkflowRoutingEntry → Target
entry_target e = (e.wfdef_key, e.step_key, e.handler_func)

abbrev pub trigger_target : WorkflowTrigger → Target
trigger_target t = (t.wfdef_key, t.step_key, t.handler_func)

-- A trigger is for the selector's workflow and resource, and has a step if it is for a step.
abbrev pub is_for : Option WorkflowSelector → WorkflowTrigger → Bool
is_for none t = true
is_for (some w) t =
    str_eq w.wfdef_key t.wfdef_key
    && (option_eq w.resource_id t.resource_id && str_eq w.resource_name t.resource_name)

abbrev pub fits : Option WorkflowSelector → WorkflowTrigger → Bool
fits selector t = is_for selector t && (not (is_some t.step_key) || is_some t.selector)

module _ (uuid_genr : ℕ → Uuid) (name : String) (data_ : EventData)
    (selector : Option WorkflowSelector) where
  abbrev Exact : List WorkflowRoutingEntry → Routed → Type 0
  Exact entries r =
      (all (fits selector) r.triggers ≡ true)
      × (r.failure ≡ none
          → map trigger_target r.triggers
            ≡ map entry_target (filter (takes selector data_) entries))

  one_entry :
      (n : ℕ) (e : WorkflowRoutingEntry) (entries : List WorkflowRoutingEntry)
      (o : Result (Option RouteData))
      → e.routing_func data_ ≡ o
      → ((m : ℕ) → Exact entries (route_entries uuid_genr name data_ selector m entries))
      → Exact (e ∷ entries) (route_entries uuid_genr name data_ selector n (e ∷ entries))
  unfolding route_entries
  one_entry n e entries (raised f) eq ih = rw eq (ground (arith, ih n))
  one_entry n e entries (ok none) eq ih = rw eq (ground (arith, ih n))
  one_entry n e entries (ok (some d)) eq ih = rw eq (ground (arith, ih n, ih (n + 1)))

  entries-Exact :
      (n : ℕ) (entries : List WorkflowRoutingEntry)
      → Exact entries (route_entries uuid_genr name data_ selector n entries)
  unfolding route_entries
  entries-Exact n [] = (refl, λ _. refl)
  entries-Exact n (e ∷ entries) =
      one_entry n e entries (e.routing_func data_) refl (λ m. entries-Exact m entries)

  table-Exact :
      (o : Option (List WorkflowRoutingEntry))
      → Exact (or_default o []) (elim o [
        | none ↦ stopped (Failure.not_found "P00.081")
        | some entries ↦ route_entries uuid_genr name data_ selector 0 entries
      ])
  table-Exact none = (refl, λ h. absurd (cc h))
  table-Exact (some entries) = entries-Exact 0 entries

-- Every trigger that an event yields, also one before a failure, is for the workflow and the resource
-- of the selector, and has the id of a step if its handler is for a step. If nothing is raised, the
-- triggers are those of the entries that take the event, each once and in the order of the table.
pub route_event-exact :
    (uuid_genr : ℕ → Uuid) (name : String) (data_ : EventData) (selector : Option WorkflowSelector)
    (table : Table)
    → let r = route_event uuid_genr name data_ selector table in
      (all (fits selector) r.triggers ≡ true)
      × (r.failure ≡ none
          → map trigger_target r.triggers
            ≡ map entry_target (filter (takes selector data_) (entries_of name table)))
unfolding route_event
route_event-exact uuid_genr name data_ selector table =
    table-Exact uuid_genr name data_ selector (get name table)

-- how many of the attributes are connected with a step
abbrev pub step_count : List (Option Connected) → ℕ
step_count [] = 0
step_count (none ∷ attrs) = step_count attrs
step_count (some c ∷ attrs) = if truthy c.step then suc (step_count attrs) else step_count attrs

abbrev key_count : Option String → ℕ
key_count key = if truthy key then 1 else 0

abbrev outcome : ℕ → Result Unit
outcome n = if leb 2 n then raised (Failure.configuration_error "P00.083") else ok tt

one_attr :
    (key : Option String) (c : Connected) (n : ℕ) (rest : Result Unit)
    → rest ≡ outcome (key_count (either_key key c.step) + n)
    → (if truthy key && truthy c.step then raised (Failure.configuration_error "P00.083") else rest)
      ≡ outcome (key_count key + (if truthy c.step then suc n else n))
one_attr key c n rest h = elim (Bool-cases (truthy key)) [
  | inl a ↦ elim (Bool-cases (truthy c.step)) [
    | inl b ↦ rw (a, b) (ground arith)
    | inr b ↦ rw (a, b) (rw (a, a) at h)
  ]
  | inr a ↦ elim (Bool-cases (truthy c.step)) [
    | inl b ↦ rw (a, b) ((rw (a, b) at h) ∙ ap outcome (omega arith))
    | inr b ↦ rw (a, b) (rw (a, b) at h)
  ]
]

if_fst : {A B : Type 0} (b : Bool) (x y : A × B) → (if b then x else y).0 ≡ (if b then x.0 else y.0)
if_fst true x y = refl
if_fst false x y = refl

connect_events-counts :
    (wfdef_key : String) (key : Option String) (attrs : List (Option Connected)) (table : Table)
    → (connect_events wfdef_key key attrs table).0 ≡ outcome (key_count key + step_count attrs)
unfolding connect_events
connect_events-counts wfdef_key key [] table = ground arith
connect_events-counts wfdef_key key (none ∷ attrs) table =
    connect_events-counts wfdef_key key attrs table
connect_events-counts wfdef_key key (some c ∷ attrs) table =
    if_fst (truthy key && truthy c.step) _ _
    ∙ one_attr key c (step_count attrs) _
        (connect_events-counts wfdef_key (either_key key c.step) attrs _)

-- Connecting the methods of a class, outside of a step, raises P00.083 exactly if at least two of them
-- name a step, whichever steps those are.
pub connect_events-outcome :
    (wfdef_key : String) (attrs : List (Option Connected)) (table : Table)
    → (connect_events wfdef_key none attrs table).0
      ≡ (if leb 2 (step_count attrs) then raised (Failure.configuration_error "P00.083") else ok tt)
connect_events-outcome wfdef_key attrs table =
    connect_events-counts wfdef_key none attrs table ∙ ap outcome (omega arith)
