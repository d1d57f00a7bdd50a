-- ===== src/Domain/Tests.antt =====
-- A domain with two processors, and sessions with it.
use fluvius_py.Common.{str_eq, filter, ◌≡◌, refl, true, false, Option, none, some, List, [], ◌∷◌}
use fluvius_py.Common.Int.{ℤ, pos}
use fluvius_py.Common.Sorting.{sort, insert, InOrder}
use fluvius_py.Common.Dict.{Dict, get, put}
use fluvius_py.Exec.{attempt, Failure, Result, ok, raised, After, ◌>>=◌}
use fluvius_py.Domain.Entities.{
  Value, CommandBundle, MessageBundle, Particle, ActionCall, Script, Processor, CommandMeta,
}
use fluvius_py.Domain.Handlers.{
  Entry, register_all, command_processor, before, fill_map, build_handler_map, select,
}
use fluvius_py.Domain.Selection.{processors, of_priority, named, found, select-order}
use fluvius_py.Domain.Session.{Domain, Context, Session}
use fluvius_py.Domain.Aggregate.{
  enter_aggregate, fetch_command_rootobj, if_match, leave_aggregate, perform_action, create_event,
  create_response,
}
use fluvius_py.Domain.Process.{
  publish, add_entry, process_command_internal, run_processors, run_processor, run, handle_particle,
  collect_event, consume_events, invoke_processors, lookup_command,
}
use fluvius_py.Domain.Commands.{
  check_policy, authorize_command, process_all, trigger_reconciliation, transaction_body,
  transaction, handle_events, dispatch_messages, collect_responses, after_commit, given_identifier,
  with_identifier, validate_aggroot, resource_allowed, stamped, create_command, process_command,
}
use fluvius_py.Domain.Settlement.{Settled, process_command-settles}
use fluvius_py.Domain.Overlap.{Busy, Free, invoke-Busy}
use fluvius_py.Domain.Refusal.{Stuck, process_command-Stuck}
use fluvius_py.Domain.Created.{IsIdentifier, create_command-valid}

abbrev added : ActionCall
added = record {
  evt_key = some "added";
  resources = some ("cart" ∷ []);
  args = Value.null;
  body = ok (Value.number 1);
}

abbrev told : MessageBundle
told = record { msg_key = "told"; content = Value.null; src_cmd = none }

-- It yields a message, then calls an action, and raises if that does.
abbrev adding : Processor
adding = Processor.generator λ cmd.
    Script.emit (some (Particle.message told))
      (Script.act added λ given. elim given [ ok v ↦ Script.finish tt | raised e ↦ Script.throw e ])

abbrev counting : Processor
counting = Processor.function λ cmd. Script.finish (some (Value.number 7))

abbrev failing : Processor
failing = Processor.function λ cmd. Script.throw (Failure.user_error "stop")

-- `failing` for its own command, then the two of `add`: the later one comes first.
abbrev registered : List Entry
registered =
    (command_processor (pos 0) counting ("add" ∷ []) (
      command_processor (pos 0) adding ("add" ∷ []) (
        command_processor (pos 2) failing ("stop" ∷ [])
          (record { counter = 0; cmd_processors = [] })))).cmd_processors

abbrev shop : Domain
shop = record {
  namespace = "shop";
  revision = 3;
  cmd_processors = registered;
  commands =
      ("add", record { resources = "cart" ∷ []; resource_init = true; policy_required = true })
      ∷ ("stop", record { resources = []; resource_init = true; policy_required = true })
      ∷ [];
  command_permission = true;
  if_match_verify = true;
  default_response_type = "default-response";
  responses = ("default-response", λ v. ok v) ∷ [];
  event_data = λ key v. ok v;
  subscribers = λ s. ok tt;
  fetch = λ root. ok "etag";
  add_entry = λ e. ok tt;
  policymgr = some (λ req. ok true);
  evthandler = some (λ evt. ok tt);
  dispatcher = none;
}

abbrev request : Context
request = record { id = "ctx"; source = ""; if_match = none; authorization = some "me" }

abbrev add_item : CommandBundle
add_item = record {
  id = "c1";
  command = "add";
  payload = Value.null;
  resource = "cart";
  identifier = "i1";
  domain_sid = none;
  domain_iid = none;
  domain = "shop";
  revision = 0;
  context = none;
}

abbrev stop : CommandBundle
stop = record add_item { id = "c2"; command = "stop" }

abbrev idle : Session
idle = record {
  evt_queue = [];
  msg_queue = [];
  rsp_queue = [];
  cmd_queue = [];
  active = none;
  agg_queue = [];
  log = [];
  committed = [];
  published = [];
  handled = [];
  dispatched = [];
}

abbrev busy : Session
busy = record idle { active = some stop }

last_first : select (build_handler_map registered) "add" ≡ ok (counting ∷ adding ∷ [])
unfolding command_processor register_all select build_handler_map sort insert fill_map get put
last_first = refl

select-order_example :
    (ranked : List Entry) × (select (build_handler_map registered) "add"
      ≡ found (processors ranked))
    × InOrder before ranked
    × ((p : ℤ)
        → filter (of_priority p) ranked ≡ filter (of_priority p) (filter (named "add") registered))
select-order_example = select-order "add" registered

-- The two commands of `add` give a response and a message, and the event of the action is handled.
abbrev run_add : Result (Option (Dict Value)) × Session
run_add = process_command shop request (add_item ∷ []) idle

add_responds : run_add.0 ≡ ok (some (("default-response", Value.number 7) ∷ []))
unfolding ◌>>=◌ process_command transaction transaction_body process_all authorize_command
    check_policy process_command_internal publish add_entry lookup_command invoke_processors
    enter_aggregate fetch_command_rootobj if_match command_processor register_all select
    build_handler_map sort insert fill_map get put run_processors run_processor run attempt
    handle_particle collect_event perform_action create_event create_response consume_events
    leave_aggregate trigger_reconciliation after_commit handle_events dispatch_messages
    collect_responses
add_responds = refl

add_handles :
    run_add.1.handled
    ≡ record { event = "added"; args = Value.null; content = Value.number 1; src_cmd = some "c1" }
      ∷ []
unfolding ◌>>=◌ process_command transaction transaction_body process_all authorize_command
    check_policy process_command_internal publish add_entry lookup_command invoke_processors
    enter_aggregate fetch_command_rootobj if_match command_processor register_all select
    build_handler_map sort insert fill_map get put run_processors run_processor run attempt
    handle_particle collect_event perform_action create_event create_response consume_events
    leave_aggregate trigger_reconciliation after_commit handle_events dispatch_messages
    collect_responses
add_handles = refl

process_command-settles_example :
    Settled idle
      (stamped shop request (add_item ∷ stop ∷ []))
      (process_command shop request (add_item ∷ stop ∷ []) idle)
process_command-settles_example =
    process_command-settles shop (λ evt. ok tt) request add_item (stop ∷ []) idle refl

invoke-Busy_example :
    After
      (λ _. Free)
      Busy
      (invoke_processors shop request stop
        (record { resources = []; resource_init = true; policy_required = true })
        idle)
invoke-Busy_example =
    invoke-Busy shop request stop
      (record { resources = []; resource_init = true; policy_required = true }) idle

process_command-Stuck_example :
    ((e : Failure) × ((process_command shop request (add_item ∷ []) busy).0 ≡ raised e))
    × Stuck busy (process_command shop request (add_item ∷ []) busy).1
process_command-Stuck_example = process_command-Stuck shop request add_item [] busy refl

abbrev made : CommandBundle
made = record add_item { identifier = "new"; revision = 3 }

create_command-valid_example :
    (meta : CommandMeta) × (lookup_command shop "add" ≡ ok meta)
    × (made.resource ≡ "cart")
    × (str_eq "cart" "" ≡ false)
    × (resource_allowed meta.resources "cart" ≡ true)
    × IsIdentifier "new" none meta.resource_init made.identifier
    × (ok Value.null ≡ ok made.payload)
    × (made.command ≡ "add")
    × (made.domain ≡ shop.namespace)
    × (made.revision ≡ shop.revision)
unfolding create_command validate_aggroot given_identifier with_identifier lookup_command get
create_command-valid_example =
    create_command-valid shop "new" "c1" (λ key v. ok v) "add" Value.null "cart" none none none made
      refl
