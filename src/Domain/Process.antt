-- ===== src/Domain/Process.antt =====
-- Running the processors of a command and handling what they yield.
use fluvius_py.Common.{String, Option, none, some, List, [], ◌∷◌, ◌++◌}
use fluvius_py.Common.Dict.{get}
use fluvius_py.Exec.{
  Failure, Result, pure, raise, raise_if, lift, gets, modify, attempt, ◌>>=◌, ◌>>◌, require,
}
use fluvius_py.Domain.Entities.{
  Uuid, Value, CommandBundle, AggregateRoot, EventRecord, Particle, Script, Processor, CommandMeta,
}
use fluvius_py.Domain.Handlers.{select, build_handler_map}
use fluvius_py.Domain.Session.{DomainSignal, LogEntry, Domain, Context, Run}
use fluvius_py.Domain.Aggregate.{
  aggroot_of, enter_aggregate, leave_aggregate, is_empty, perform_action, create_response,
}

module _ (D : Domain) where
  unfoldable pub publish : DomainSignal → Run Unit
  publish signal =
      modify (λ s. record s { published = s.published ++ signal ∷ [] })
      >> lift (D.subscribers signal)

  -- a write to the log store, in the transaction
  unfoldable pub add_entry : LogEntry → Run Unit
  add_entry entry = lift (D.add_entry entry) >> modify (λ s. record s { log = s.log ++ entry ∷ [] })

  -- what `process_command` does with an event that it is given
  unfoldable pub collect_event : EventRecord → Run Unit
  collect_event evt =
      modify (λ s. record s { evt_queue = s.evt_queue ++ evt ∷ [] })
      >> add_entry (LogEntry.event_log evt)

  -- the body of the loop of `process_command_internal`
  unfoldable pub handle_particle : Uuid → Particle → Run Unit
  handle_particle id (Particle.event evt) =
      publish DomainSignal.event_commited >> collect_event (record evt { src_cmd = some id })
  handle_particle id (Particle.message m) =
      modify (λ s. record s { msg_queue = s.msg_queue ++ record m { src_cmd = some id } ∷ [] })
      >> publish DomainSignal.message_received
  handle_particle id (Particle.response r) =
      modify (λ s. record s { rsp_queue = s.rsp_queue ++ record r { src_cmd = some id } ∷ [] })
      >> publish DomainSignal.response_received
  handle_particle id (Particle.activity a) =
      add_entry (LogEntry.activity_log (record a { src_cmd = some id }))
  handle_particle id (Particle.foreign kind) = raise (Failure.internal_error "D00.107")

  abbrev pub handle_yield : Uuid → Option Particle → Run Unit
  handle_yield id none = pure tt
  handle_yield id (some p) = handle_particle id p

  -- A generator goes on when what it yielded is handled.
  unfoldable pub run : {Y R : Type 0} → (Y → Run Unit) → AggregateRoot → Script Y R → Run R
  run handle aggroot (Script.finish r) = pure r
  run handle aggroot (Script.throw e) = raise e
  run handle aggroot (Script.emit y k) = handle y >> run handle aggroot k
  run handle aggroot (Script.act call k) =
      attempt (perform_action D aggroot call) (λ given. run handle aggroot (k given))

  abbrev pub respond : Uuid → Option Value → Run Unit
  respond id none = pure tt
  respond id (some value) =
      lift (create_response D value) >>= λ r. handle_particle id (Particle.response r)

  unfoldable pub run_processor : CommandBundle → Processor → Run Unit
  run_processor cmd (Processor.generator f) = run (handle_yield cmd.id) (aggroot_of cmd) (f cmd)
  run_processor cmd (Processor.function f) =
      run (λ e. absurd e) (aggroot_of cmd) (f cmd) >>= respond cmd.id

  unfoldable pub run_processors : CommandBundle → List Processor → Run Unit
  run_processors cmd [] = pure tt
  run_processors cmd (p ∷ ps) = run_processor cmd p >> run_processors cmd ps

  -- `consume_events`, over the events that are in the queue
  unfoldable pub consume_events : Uuid → List EventRecord → Run Unit
  consume_events id [] = pure tt
  consume_events id (evt ∷ evts) =
      modify (λ s. record s { agg_queue = evts })
      >> handle_particle id (Particle.event evt)
      >> consume_events id evts

  unfoldable pub invoke_processors : Context → CommandBundle → CommandMeta → Run Unit
  invoke_processors ctx cmd meta =
      enter_aggregate D ctx meta cmd
      >> lift (select (build_handler_map D.cmd_processors) cmd.command)
      >>= λ ps.
          run_processors cmd ps
          >> (gets (λ s. s.agg_queue) >>= consume_events cmd.id)
          >> leave_aggregate
          >> raise_if (is_empty ps) (Failure.internal_error "D00.106")

  unfoldable pub lookup_command : String → Result CommandMeta
  lookup_command key = require (Failure.key_error key) (get key D.commands)

  unfoldable pub process_command_internal : Context → CommandBundle → Run Unit
  process_command_internal ctx cmd =
      add_entry (LogEntry.command_log cmd)
      >> publish DomainSignal.command_ready
      >> lift (lookup_command cmd.command)
      >>= λ meta.
          invoke_processors ctx cmd meta
          >> publish DomainSignal.trigger_replication
          >> modify (λ s. record s { cmd_queue = s.cmd_queue ++ cmd ∷ [] })
          >> publish DomainSignal.command_completed
