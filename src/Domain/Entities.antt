-- ===== src/Domain/Entities.antt =====
-- What a command processor handles: commands, the records it yields, and what it may do.
use fluvius_py.Common.{ℕ, String, Bool, Option, List}
use fluvius_py.Exec.{Failure, Result}

abbrev pub Uuid : Type 0
Uuid = String

-- data that the domain passes on
pub data Value : Type 0 where
  null : Value
  number : ℕ → Value
  text : String → Value

-- The fields of these records that processing reads or writes.
pub record CommandBundle : Type 0 where
  pub id : Uuid
  pub command : String
  pub payload : Value
  pub resource : String
  pub identifier : Uuid
  pub domain_sid : Option Uuid
  pub domain_iid : Option Uuid
  pub domain : String
  pub revision : ℕ
  pub context : Option Uuid

pub record AggregateRoot : Type 0 where
  pub resource : String
  pub identifier : Uuid
  pub domain_sid : Option Uuid
  pub domain_iid : Option Uuid

pub record EventRecord : Type 0 where
  pub event : String
  pub args : Value
  pub content : Value
  pub src_cmd : Option Uuid

pub record MessageBundle : Type 0 where
  pub msg_key : String
  pub content : Value
  pub src_cmd : Option Uuid

pub record ResponseRecord : Type 0 where
  pub response : String
  pub content : Value
  pub src_cmd : Option Uuid

pub record ActivityLog : Type 0 where
  pub message : String
  pub src_cmd : Option Uuid

-- what a processor yields; `foreign` is any object of another class
pub data Particle : Type 0 where
  event : EventRecord → Particle
  message : MessageBundle → Particle
  response : ResponseRecord → Particle
  activity : ActivityLog → Particle
  foreign : String → Particle

-- A call of an aggregate's method marked `@action`: the key of its event, the resources it is for, its
-- keyword arguments, and what its body returns or raises.
pub record ActionCall : Type 0 where
  pub evt_key : Option String
  pub resources : Option (List String)
  pub args : Value
  pub body : Result Value

-- Code of a processor: it returns, raises, yields, and calls actions with what they gave before, which
-- it may catch.
pub data Script (Y R : Type 0) : Type 0 where
  finish : R → Script Y R
  throw : Failure → Script Y R
  emit : Y → Script Y R → Script Y R
  act : ActionCall → (Result Value → Script Y R) → Script Y R

-- A function that was registered: an asynchronous generator, or a function, whose result is made a
-- response.
pub data Processor : Type 0 where
  generator : (CommandBundle → Script (Option Particle) Unit) → Processor
  function : (CommandBundle → Script ⊥ (Option Value)) → Processor

-- `CommandMeta`, as far as it is read
pub record CommandMeta : Type 0 where
  pub resources : List String
  pub resource_init : Bool
  pub policy_required : Bool
