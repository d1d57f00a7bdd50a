-- ===== src/Domain/Commands.antt =====
-- What a domain is asked: to make a command and to process a row of commands in a transaction.
use fluvius_py.Common.{
  String, Bool, true, false, not, ◌||◌, ◌&&◌, Option, none, some, List, [], ◌∷◌, ◌++◌, any, str_eq,
  is_some, if◌then◌else◌,
}
use Prim.Native.String.{◌++◌ as str_append}
use fluvius_py.Common.Dict.{Dict, get, put}
use fluvius_py.Exec.{
  Failure, Result, ok, raised, and_then, pure, raise_if, lift, gets, modify, ◌>>=◌, ◌>>◌,
}
use fluvius_py.Domain.Entities.{
  Uuid, Value, CommandBundle, AggregateRoot, EventRecord, MessageBundle, ResponseRecord,
  CommandMeta,
}
use fluvius_py.Domain.Session.{DomainSignal, LogEntry, Domain, Context, Session, Run}
use fluvius_py.Domain.Aggregate.{is_empty}
use fluvius_py.Domain.Process.{publish, add_entry, lookup_command, process_command_internal}

-- the identifier of a root; `fresh` is what `UUID_GENR` gives
unfoldable pub given_identifier : Uuid → Option Uuid → Bool → Option Uuid
given_identifier fresh identifier resource_init =
    if resource_init && not (is_some identifier) then some fresh else identifier

unfoldable pub with_identifier :
    String → Option Uuid → Option Uuid → Option Uuid → Result AggregateRoot
with_identifier resource given domain_sid domain_iid =
    if str_eq resource "" then raised (Failure.bad_request "D00.410") else elim given [
      | none ↦ raised (Failure.bad_request "D00.412")
      | some id ↦ ok (record {
        resource = resource;
        identifier = id;
        domain_sid = domain_sid;
        domain_iid = domain_iid;
      })
    ]

unfoldable pub validate_aggroot :
    Uuid → String → Option Uuid → Option Uuid → Option Uuid → Bool → Result AggregateRoot
validate_aggroot fresh resource identifier domain_sid domain_iid resource_init =
    with_identifier resource (given_identifier fresh identifier resource_init) domain_sid domain_iid

abbrev pub resource_allowed : List String → String → Bool
resource_allowed spec resource = is_empty spec || any (str_eq resource) spec

module _ (D : Domain) where
  abbrev pub root_checked : String → CommandMeta → AggregateRoot → Result AggregateRoot
  root_checked key meta aggroot =
      if resource_allowed meta.resources aggroot.resource
      then ok aggroot
      else raised (Failure.forbidden "D00.306")

  -- The new UUIDs are `fresh` and `fresh_id`; `create` makes the data of the command's model.
  unfoldable pub create_command :
      Uuid
      → Uuid
      → (String → Value → Result Value)
      → String
      → Value
      → String
      → Option Uuid
      → Option Uuid
      → Option Uuid
      → Result CommandBundle
  create_command fresh fresh_id create key cmd_data resource identifier domain_sid domain_iid =
      and_then (lookup_command D key) λ meta.
        and_then
          (validate_aggroot fresh resource identifier domain_sid domain_iid meta.resource_init)
          λ given. and_then (root_checked key meta given) λ aggroot.
            and_then (create key cmd_data) λ payload. ok (record {
              id = fresh_id;
              command = key;
              payload = payload;
              resource = aggroot.resource;
              identifier = aggroot.identifier;
              domain_sid = aggroot.domain_sid;
              domain_iid = aggroot.domain_iid;
              domain = D.namespace;
              revision = D.revision;
              context = none;
            })

  abbrev pub action_name : CommandBundle → String
  action_name cmd = str_append D.namespace (str_append ":" cmd.command)

  unfoldable pub check_policy : Context → CommandBundle → CommandMeta → Result Unit
  check_policy ctx cmd meta = elim D.policymgr [
    | none ↦ ok tt
    | some check ↦ elim ctx.authorization [
      | none ↦ ok tt
      | some auth ↦
          if not meta.policy_required
          then ok tt
          else elim (check
              (record { auth_ctx = auth; act = action_name cmd; rid = cmd.identifier })) [
                | raised e ↦ raised e
                | ok true ↦ ok tt
                | ok false ↦ raised (Failure.forbidden "D00.307")
              ]
    ]
  ]

  unfoldable pub authorize_command : Context → CommandBundle → Run CommandBundle
  authorize_command ctx cmd =
      if not D.command_permission
      then pure cmd
      else (lift (lookup_command D cmd.command) >>= λ meta.
          lift (check_policy ctx cmd meta) >> pure cmd)

  abbrev pub stamp : Context → CommandBundle → CommandBundle
  stamp ctx cmd = record cmd { context = some ctx.id; domain = D.namespace; revision = D.revision }

  -- the commands as they are processed
  abbrev pub stamped : Context → List CommandBundle → List CommandBundle
  stamped ctx [] = []
  stamped ctx (cmd ∷ cmds) = stamp ctx cmd ∷ stamped ctx cmds

  unfoldable pub process_all : Context → List CommandBundle → Run Unit
  process_all ctx [] = pure tt
  process_all ctx (cmd ∷ cmds) = authorize_command ctx (stamp ctx cmd) >>= λ auth_cmd.
      process_command_internal D ctx auth_cmd >> process_all ctx cmds

  -- `trigger_reconciliation`, over the commands that are in the queue
  unfoldable pub trigger_reconciliation : List CommandBundle → Run Unit
  trigger_reconciliation [] = pure tt
  trigger_reconciliation (cmd ∷ cmds) =
      modify (λ s. record s { cmd_queue = cmds })
      >> publish D DomainSignal.trigger_reconciliation
      >> trigger_reconciliation cmds

  -- what runs in the two transactions
  unfoldable pub transaction_body : Context → List CommandBundle → Run Unit
  transaction_body ctx cmds =
      add_entry D (LogEntry.context_log ctx.id)
      >> process_all ctx cmds
      >> (gets (λ s. s.cmd_queue) >>= trigger_reconciliation)
      >> publish D DomainSignal.transaction_committing

  -- `transaction` of the log store: a raise rolls back.
  abbrev pub commit_or_rollback : {A : Type 0} → Result A × Session → Result A × Session
  commit_or_rollback (ok a, s) = (ok a, record s { committed = s.committed ++ s.log; log = [] })
  commit_or_rollback (raised e, s) = (raised e, record s { log = [] })

  unfoldable pub transaction : {A : Type 0} → Run A → Run A
  transaction m s = commit_or_rollback (m (record s { log = [] }))

  abbrev pub process_event : EventRecord → Result Unit
  process_event evt = elim D.evthandler [ none ↦ ok tt | some handler ↦ handler evt ]

  unfoldable pub handle_events : List EventRecord → Run Unit
  handle_events [] = pure tt
  handle_events (evt ∷ evts) =
      modify (λ s. record s { evt_queue = evts })
      >> lift (process_event evt)
      >> modify (λ s. record s {
        handled = if is_some D.evthandler then s.handled ++ evt ∷ [] else s.handled;
      })
      >> handle_events evts

  abbrev pub dispatch : MessageBundle → Result Unit
  dispatch m = elim D.dispatcher [ none ↦ ok tt | some send ↦ send m ]

  unfoldable pub dispatch_messages : List MessageBundle → Run Unit
  dispatch_messages [] = pure tt
  dispatch_messages (m ∷ ms) =
      modify (λ s. record s { msg_queue = ms })
      >> lift (dispatch m)
      >> modify (λ s. record s {
        dispatched = if is_some D.dispatcher then s.dispatched ++ m ∷ [] else s.dispatched;
      })
      >> dispatch_messages ms

  unfoldable pub collect_responses : List ResponseRecord → Dict Value → Run (Dict Value)
  collect_responses [] responses = pure responses
  collect_responses (r ∷ rs) responses =
      modify (λ s. record s { rsp_queue = rs })
      >> raise_if (is_some (get r.response responses)) (Failure.internal_error "D00.109")
      >> collect_responses rs (put r.response r.content responses)

  -- what follows the transactions
  unfoldable pub after_commit : Run (Dict Value)
  after_commit =
      publish D DomainSignal.transaction_committed
      >> (gets (λ s. s.evt_queue) >>= handle_events)
      >> (gets (λ s. s.msg_queue) >>= dispatch_messages)
      >> (gets (λ s. s.rsp_queue) >>= λ rs. collect_responses rs [])

  unfoldable pub process_command : Context → List CommandBundle → Run (Option (Dict Value))
  process_command ctx [] = pure none
  process_command ctx (cmd ∷ cmds) =
      transaction (transaction_body ctx (cmd ∷ cmds)) >> after_commit >>= λ responses.
      pure (some responses)
