-- ===== src/Domain/Session.antt =====
-- A domain, as its classes and its parts set it up, and a session with it.
use fluvius_py.Common.{ℕ, String, Bool, Option, List}
use fluvius_py.Common.Dict.{Dict}
use fluvius_py.Exec.{Result, Exec}
use fluvius_py.Domain.Entities.{
  Uuid, Value, CommandBundle, AggregateRoot, EventRecord, MessageBundle, ResponseRecord,
  ActivityLog, CommandMeta,
}
use fluvius_py.Domain.Handlers.{Entry}

pub data DomainSignal : Type 0 where
  command_completed : DomainSignal
  command_ready : DomainSignal
  event_commited : DomainSignal
  message_received : DomainSignal
  response_received : DomainSignal
  transaction_committed : DomainSignal
  transaction_committing : DomainSignal
  trigger_reconciliation : DomainSignal
  trigger_replication : DomainSignal

-- what is written to the log store
pub data LogEntry : Type 0 where
  context_log : Uuid → LogEntry
  command_log : CommandBundle → LogEntry
  event_log : EventRecord → LogEntry
  activity_log : ActivityLog → LogEntry

pub record PolicyRequest : Type 0 where
  pub auth_ctx : Uuid
  pub act : String
  pub rid : Uuid

-- The fields of a domain. The second group is code of other packages or of the application: the
-- data models of events and responses, the signals' subscribers, the state manager's lookup of
-- the root, which gives its etag, the log store, the policy manager, and the two handlers.
pub record Domain : Type 0 where
  pub namespace : String
  pub revision : ℕ
  pub cmd_processors : List Entry
  pub commands : Dict CommandMeta
  pub command_permission : Bool
  pub if_match_verify : Bool
  pub default_response_type : String
  pub responses : Dict (Value → Result Value)
  pub event_data : String → Value → Result Value
  pub subscribers : DomainSignal → Result Unit
  pub fetch : AggregateRoot → Result String
  pub add_entry : LogEntry → Result Unit
  pub policymgr : Option (PolicyRequest → Result Bool)
  pub evthandler : Option (EventRecord → Result Unit)
  pub dispatcher : Option (MessageBundle → Result Unit)

-- The data of `Domain.Context` that is not written.
pub record Context : Type 0 where
  pub id : Uuid
  pub source : String
  pub if_match : Option String
  pub authorization : Option Uuid

-- What a session writes: the queues of the context, the aggregate's command and queue, the entries
-- of the transaction that runs and those of the committed ones, the signals sent, the events
-- that were handled and the messages that were dispatched.
pub record Session : Type 0 where
  pub evt_queue : List EventRecord
  pub msg_queue : List MessageBundle
  pub rsp_queue : List ResponseRecord
  pub cmd_queue : List CommandBundle
  pub active : Option CommandBundle
  pub agg_queue : List EventRecord
  pub log : List LogEntry
  pub committed : List LogEntry
  pub published : List DomainSignal
  pub handled : List EventRecord
  pub dispatched : List MessageBundle

abbrev pub Run : Type 0 → Type 0
Run A = Exec Session A
