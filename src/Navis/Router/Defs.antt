-- ===== src/Navis/Router/Defs.antt =====
-- The routing table, how handlers are connected, and how an event is routed.
use fluvius_py.Common.{
  ℕ, ◌+◌, String, Bool, true, false, not, ◌&&◌, ◌||◌, Option, none, some, List, [], ◌∷◌, ◌++◌,
  str_eq, is_some, or_default, if◌then◌else◌,
}
use fluvius_py.Common.Int.{ℤ, le_int}
use fluvius_py.Common.Sorting.{sort}
use fluvius_py.Common.Dict.{Dict, get, put}
use fluvius_py.Navis.Data.{Uuid}
use fluvius_py.Exec.{Failure, Result, ok, raised}
use fluvius_py.Navis.Runner.Script.{Hook}

-- An attribute of the data of an event: it may be missing, None, a UUID or a string.
pub data Attribute : Type 0 where
  missing null : Attribute
  uuid : Uuid → Attribute
  text : String → Attribute

pub record EventData : Type 0 where
  pub step_selector : Attribute
  pub resource_id : Attribute
  pub resource_name : Attribute

-- what a routing function returns: the resource's name and id, and the step's selector
pub record RouteData : Type 0 where
  pub resource_name : String
  pub resource_id : Option Uuid
  pub step_selector : Option Uuid

abbrev pub RoutingFunc : Type 0
RoutingFunc = EventData → Result (Option RouteData)

-- `WorkflowRoutingEntry`; the handler is applied to the event's data
pub record WorkflowRoutingEntry : Type 0 where
  pub wfdef_key : String
  pub step_key : Option String
  pub routing_func : RoutingFunc
  pub handler_func : EventData → Hook
  pub priority : ℤ

pub record WorkflowTrigger : Type 0 where
  pub id : Uuid
  pub event_name : String
  pub event_data : EventData
  pub resource_id : Option Uuid
  pub resource_name : String
  pub selector : Option Uuid
  pub wfdef_key : String
  pub step_key : Option String
  pub handler_func : EventData → Hook

pub record WorkflowSelector : Type 0 where
  pub wfdef_key : String
  pub resource_id : Option Uuid
  pub resource_name : String

-- `UUID_TYPE(text)`, which is Python's, raises if it gets no text of a UUID.
module _ (parse_uuid : String → Option Uuid) where
  abbrev pub to_uuid : String → Result (Option Uuid)
  to_uuid t = elim (parse_uuid t) [ none ↦ raised (Failure.value_error t) | some u ↦ ok (some u) ]

  -- `getattr(event_data, 'step_selector', None)`, with an empty string taken as None
  abbrev pub route_selector : Attribute → Result (Option Uuid)
  route_selector Attribute.missing = ok none
  route_selector Attribute.null = ok none
  route_selector (Attribute.uuid u) = ok (some u)
  route_selector (Attribute.text t) = if str_eq t "" then ok none else to_uuid t

  abbrev pub route_resource_id : Attribute → Result (Option Uuid)
  route_resource_id Attribute.missing = raised (Failure.attribute_error "resource_id")
  route_resource_id Attribute.null = ok none
  route_resource_id (Attribute.uuid u) = ok (some u)
  route_resource_id (Attribute.text t) = to_uuid t

  abbrev pub route_resource_name : Attribute → Result String
  route_resource_name Attribute.missing = raised (Failure.attribute_error "resource_name")
  route_resource_name Attribute.null = raised Failure.assertion_error
  route_resource_name (Attribute.uuid u) = ok u
  route_resource_name (Attribute.text t) =
      if str_eq t "" then raised Failure.assertion_error else ok t

  unfoldable pub default_route_func : RoutingFunc
  default_route_func e = elim (route_selector e.step_selector) [
    | raised f ↦ raised f
    | ok selector ↦ elim (route_resource_id e.resource_id) [
      | raised f ↦ raised f
      | ok id ↦ elim (route_resource_name e.resource_name) [
        | raised f ↦ raised f
        | ok name ↦
            ok (some (record { resource_name = name; resource_id = id; step_selector = selector }))
      ]
    ]
  ]

abbrev pub before : WorkflowRoutingEntry → WorkflowRoutingEntry → Bool
before a b = le_int a.priority b.priority

abbrev pub Table : Type 0
Table = Dict (List WorkflowRoutingEntry)

unfoldable pub connect : String → WorkflowRoutingEntry → Table → Table
connect name e table = put name (sort before (or_default (get name table) [] ++ e ∷ [])) table

-- A generator: the triggers it yields, and what it raises in the end, if it does.
pub record Routed : Type 0 where
  pub triggers : List WorkflowTrigger
  pub failure : Option Failure

abbrev pub yielded : WorkflowTrigger → Routed → Routed
yielded t r = record r { triggers = t ∷ r.triggers }

abbrev pub stopped : Failure → Routed
stopped f = record { triggers = []; failure = some f }

abbrev pub option_eq : Option Uuid → Option Uuid → Bool
option_eq none none = true
option_eq (some a) (some b) = str_eq a b
option_eq _ _ = false

-- the two tests of the selector
abbrev pub other_workflow : Option WorkflowSelector → WorkflowRoutingEntry → Bool
other_workflow none e = false
other_workflow (some w) e = not (str_eq w.wfdef_key e.wfdef_key)

abbrev pub other_resource : Option WorkflowSelector → RouteData → Bool
other_resource none d = false
other_resource (some w) d =
    not (option_eq w.resource_id d.resource_id) || not (str_eq w.resource_name d.resource_name)

abbrev pub make_trigger :
    Uuid → String → EventData → WorkflowRoutingEntry → RouteData → WorkflowTrigger
make_trigger id name data_ e d = record {
  id = id;
  event_name = name;
  event_data = data_;
  resource_id = d.resource_id;
  resource_name = d.resource_name;
  selector = d.step_selector;
  wfdef_key = e.wfdef_key;
  step_key = e.step_key;
  handler_func = e.handler_func;
}

-- `UUID_GENR` gives the ids of the triggers; `n` of them have been taken.
module _ (uuid_genr : ℕ → Uuid) (name : String) (data_ : EventData)
    (selector : Option WorkflowSelector) where
  unfoldable pub route_entries : ℕ → List WorkflowRoutingEntry → Routed
  route_entries n [] = record { triggers = []; failure = none }
  route_entries n (e ∷ entries) =
      let skipped = route_entries n entries in
      let rest = route_entries (n + 1) entries in
      if other_workflow selector e then skipped else elim (e.routing_func data_) [
        | raised f ↦ stopped f
        | ok none ↦ skipped
        | ok (some d) ↦
            if other_resource selector d
            then skipped
            else if is_some e.step_key && not (is_some d.step_selector)
            then stopped (Failure.not_found "P00.082")
            else yielded (make_trigger (uuid_genr n) name data_ e d) rest
      ]

  unfoldable pub route_event : Table → Routed
  route_event table = elim (get name table) [
    | none ↦ stopped (Failure.not_found "P00.081")
    | some entries ↦ route_entries 0 entries
  ]

-- What `connect` leaves on a method: the event's name, the routing function, the step and the priority.
pub record Connected : Type 0 where
  pub event_name : String
  pub routing_func : RoutingFunc
  pub step : Option String
  pub priority : ℤ
  pub handler_func : EventData → Hook

abbrev pub truthy : Option String → Bool
truthy none = false
truthy (some k) = not (str_eq k "")

-- `step_key or evt_step_key`
abbrev pub either_key : Option String → Option String → Option String
either_key key other = if truthy key then key else other

-- The loop over the attributes of a class, in the order of `dir`; none is an attribute that is not
-- connected. The variable `step_key` keeps what an iteration assigns to it.
unfoldable pub connect_events :
    String → Option String → List (Option Connected) → Table → Result Unit × Table
connect_events wfdef_key step_key [] table = (ok tt, table)
connect_events wfdef_key step_key (none ∷ attrs) table =
    connect_events wfdef_key step_key attrs table
connect_events wfdef_key step_key (some c ∷ attrs) table =
    let key = either_key step_key c.step in
    let rest = connect_events wfdef_key key attrs (
      connect c.event_name
        (record {
          wfdef_key = wfdef_key;
          step_key = key;
          routing_func = c.routing_func;
          handler_func = c.handler_func;
          priority = c.priority;
        })
        table) in
    if truthy step_key && truthy c.step
    then (raised (Failure.configuration_error "P00.083"), table)
    else rest
