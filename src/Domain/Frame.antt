-- ===== src/Domain/Frame.antt =====
-- What the aggregate leaves alone: it writes its own queue and its command only.
use fluvius_py.Common.{
  String, Bool, true, false, not, Option, none, some, List, is_some, if◌then◌else◌,
}
use fluvius_py.Exec.{
  Failure, pure, gets, Triple-bind, Triple-pure, Triple-modify, Triple-raise_if, Triple-lift, Kept,
}
use fluvius_py.Domain.Entities.{
  Value, CommandBundle, AggregateRoot, EventRecord, ActionCall, CommandMeta,
}
use fluvius_py.Domain.Session.{DomainSignal, Domain, Context, Session, Run}
use fluvius_py.Domain.Aggregate.{
  fetch_command_rootobj, if_match, unmatched, enter_aggregate, leave_aggregate, is_empty,
  aggroot_of, create_event, with_event, action_allowed, perform_action,
}
use fluvius_py.Domain.Process.{publish}

module _ {P F : Session → Type 0} (D : Domain) (fail : (t : Session) → P t → F t) where
  pub Kept-if :
      {A : Type 0} (b : Bool) {m n : Run A}
      → Kept P F m
      → Kept P F n
      → Kept P F (if b then m else n)
  Kept-if true h k = h
  Kept-if false h k = k

  pub Kept-pure : {A : Type 0} (a : A) → Kept P F (pure a)
  Kept-pure a = Triple-pure a (λ t h. h)

  pub Kept-gets : {A : Type 0} (f : Session → A) → Kept P F (gets f)
  Kept-gets f = record { ends = λ t h. h }

  pub Kept-fetch :
      (ctx : Context) (meta : CommandMeta) (root : AggregateRoot)
      → Kept P F (fetch_command_rootobj D ctx meta root)
  unfolding fetch_command_rootobj
  Kept-fetch ctx meta root = Kept-if meta.resource_init (Kept-pure none) (
      Triple-bind (Triple-lift fail (if_match D ctx)) λ value.
        Triple-bind (Triple-lift fail (D.fetch root)) λ etag.
          Triple-bind
            (Triple-raise_if fail (unmatched value etag) (Failure.precondition_failed "D00.201"))
            λ _. Kept-pure (some etag))

  pub Kept-publish :
      (signal : DomainSignal)
      → ((t : Session) (signals : List DomainSignal) → P t → P (record t { published = signals }))
      → Kept P F (publish D signal)
  unfolding publish
  Kept-publish signal keep =
      Triple-bind (Triple-modify _ (λ t h. keep t _ h)) λ _. Triple-lift fail (D.subscribers signal)

  module _
      (keep : (t : Session) (queue : List EventRecord)
        → P t
        → P (record t { agg_queue = queue })) where
    pub Kept-action :
        (root : AggregateRoot) (call : ActionCall) → Kept P F (perform_action D root call)
    unfolding perform_action create_event
    Kept-action root call =
        Triple-bind
          (Triple-bind
            (Triple-raise_if fail (not (action_allowed call.resources root.resource))
              (Failure.forbidden "D00.308"))
            λ _. Triple-lift fail call.body)
          λ result. Kept-with_event call.evt_key result
      where
        Kept-with_event :
            (key : Option String) (result : Value) → Kept P F (with_event D key call.args result)
        Kept-with_event none result = Kept-pure result
        Kept-with_event (some key) result =
            Triple-bind
              (Triple-bind (Triple-lift fail (D.event_data key result))
                λ content. Triple-modify _ (λ t h. keep t _ h))
              λ _. Kept-pure result

  module _
      (keep : (t : Session) (queue : List EventRecord) (cmd : Option CommandBundle)
        → P t
        → P (record t { agg_queue = queue; active = cmd })) where
    pub Kept-enter :
        (ctx : Context) (meta : CommandMeta) (cmd : CommandBundle)
        → Kept P F (enter_aggregate D ctx meta cmd)
    unfolding enter_aggregate
    Kept-enter ctx meta cmd = Triple-bind (Kept-gets (λ s. is_some s.active)) λ overlapping.
        Triple-bind
          (Triple-bind
            (Triple-bind (Triple-raise_if fail overlapping (Failure.internal_error "D00.110"))
              λ _. Triple-modify _ (λ t h. keep t _ _ h))
            λ _. Kept-fetch ctx meta (aggroot_of cmd))
          λ _. Kept-pure tt

    pub Kept-leave : Kept P F leave_aggregate
    unfolding leave_aggregate
    Kept-leave = Triple-bind (Kept-gets (λ s. is_empty s.agg_queue)) λ consumed.
        Triple-bind (Triple-raise_if fail (not consumed) (Failure.internal_error "D00.102"))
          λ _. Triple-modify _ (λ t h. keep t _ _ h)
