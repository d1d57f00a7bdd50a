-- ===== src/Navis/Router/Tests.antt =====
-- The theorems on the router at a small table.
use fluvius_py.Common.{
  ◌≡◌, ◌++◌, String, false, true, Option, none, some, [], ◌∷◌, str_eq, all, filter,
}
use mathlib.Core.List.{map}
use fluvius_py.Exec.{Failure, raised}
use fluvius_py.Common.Int.{ℤ, pos, negsuc}
use fluvius_py.Common.Sorting.{InOrder}
use fluvius_py.Navis.Router.Defs.{
  before, Attribute, EventData, RoutingFunc, WorkflowRoutingEntry, WorkflowSelector, Table,
  Connected, connect, default_route_func, route_event, connect_events,
}
use fluvius_py.Navis.Router.Order.{of_priority, entries_of, connect-order}
use fluvius_py.Navis.Router.Routing.{
  takes, fits, entry_target, trigger_target, route_event-exact, connect_events-outcome,
}
use fluvius_py.Navis.Examples.{busy_hook}

abbrev route : RoutingFunc
route = default_route_func (λ t. some t)

abbrev entry : Option String → ℤ → WorkflowRoutingEntry
entry key p = record {
  wfdef_key = "loan";
  step_key = key;
  routing_func = route;
  handler_func = λ e. busy_hook;
  priority = p;
}

abbrev table : Table
table = ("paid", entry none (pos 0) ∷ entry (some "review") (pos 2) ∷ []) ∷ []

abbrev event : EventData
event = record {
  step_selector = Attribute.text "selector";
  resource_id = Attribute.uuid "resource-1";
  resource_name = Attribute.text "loan";
}

abbrev loan_selector : WorkflowSelector
loan_selector = record {
  wfdef_key = "loan";
  resource_id = some "resource-1";
  resource_name = "loan";
}

abbrev method : Option String → Connected
method key = record {
  event_name = "paid";
  routing_func = route;
  step = key;
  priority = pos 1;
  handler_func = λ e. busy_hook;
}

connect-order_example :
    InOrder before (entries_of "paid" (connect "paid" (entry none (negsuc 0)) table))
    × ((p : ℤ)
        → filter (of_priority p) (entries_of "paid" (connect "paid" (entry none (negsuc 0)) table))
          ≡ filter (of_priority p) (entries_of "paid" table)
            ++ filter (of_priority p) (entry none (negsuc 0) ∷ []))
    × ((other : String)
        → str_eq "paid" other ≡ false
        → entries_of other (connect "paid" (entry none (negsuc 0)) table) ≡ entries_of other table)
connect-order_example = connect-order "paid" (entry none (negsuc 0)) table

route_event-exact_example :
    let r = route_event (λ n. "trigger") "paid" event (some loan_selector) table in
    (all (fits (some loan_selector)) r.triggers ≡ true)
    × (r.failure ≡ none
        → map trigger_target r.triggers
          ≡ map entry_target (filter (takes (some loan_selector) event) (entries_of "paid" table)))
route_event-exact_example =
    route_event-exact (λ n. "trigger") "paid" event (some loan_selector) table

connect_events-outcome_example :
    (connect_events "loan" none
      (some (method (some "review")) ∷ none ∷ some (method (some "sign")) ∷ [])
      table).0
    ≡ raised (Failure.configuration_error "P00.083")
connect_events-outcome_example =
    connect_events-outcome "loan"
      (some (method (some "review")) ∷ none ∷ some (method (some "sign")) ∷ []) table
