-- ===== src/Domain/Overlap.antt =====
-- One command at a time: what holds of the aggregate's command between and within commands.
use fluvius_py.Common.{
  ◌≡◌, refl, sym, ◌∙◌, ap, String, Bool, true, false, not, some, List, [], ◌∷◌, filter, is_some,
}
use fluvius_py.Common.Sorting.{sort}
use fluvius_py.Exec.{
  Failure, Result, ok, raised, After, pure, raise_if, lift, gets, modify, ◌>>=◌, ◌>>◌, Triple,
  Triple-bind, Triple-modify, Triple-raise_if, Triple-lift, Kept,
}
use fluvius_py.Domain.Entities.{Uuid, CommandBundle, Particle, Processor, CommandMeta}
use fluvius_py.Domain.Handlers.{Entry, before, select, build_handler_map}
use fluvius_py.Domain.Selection.{named, processors, found, select-found}
use fluvius_py.Domain.Session.{DomainSignal, LogEntry, Domain, Context, Session}
use fluvius_py.Domain.Aggregate.{
  aggroot_of, fetch_command_rootobj, enter_aggregate, leave_aggregate, is_empty,
}
use fluvius_py.Domain.Process.{
  publish, add_entry, collect_event, handle_particle, run_processors, consume_events,
  invoke_processors,
}
use fluvius_py.Domain.Frame.{Kept-pure, Kept-gets, Kept-publish, Kept-fetch}
use fluvius_py.Domain.Processors.{Kept-processors, Kept-consume}

-- The aggregate has a command, or has none.
abbrev pub Busy : Session → Type 0
Busy t = is_some t.active ≡ true

abbrev pub Free : Session → Type 0
Free t = is_some t.active ≡ false

found-nonempty : (row ps : List Processor) → found row ≡ ok ps → is_empty ps ≡ false
found-nonempty [] ps h = sym (ap nonempty h)
  where
    nonempty : Result (List Processor) → Bool
    nonempty (ok ps) = is_empty ps
    nonempty (raised e) = false
found-nonempty (p ∷ row) ps h = sym (ap nonempty h)
  where
    nonempty : Result (List Processor) → Bool
    nonempty (ok ps) = is_empty ps
    nonempty (raised e) = false

-- A command that is found has a processor.
select-nonempty :
    (es : List Entry) (key : String) (ps : List Processor)
    → select (build_handler_map es) key ≡ ok ps
    → is_empty ps ≡ false
select-nonempty es key ps h =
    found-nonempty (processors (filter (named key) (sort before es))) ps
      (sym (select-found key es) ∙ h)

-- a lookup that is known to have given its result
lift-known :
    {A : Type 0} {P F : Session → Type 0} (r : Result A)
    → ((t : Session) → P t → F t)
    → Triple P (lift r) (λ a t. (r ≡ ok a) × P t) F
lift-known (ok a) fail = record { ends = λ t h. (refl, h) }
lift-known (raised e) fail = record { ends = fail }

module _ (D : Domain) where
  Busy-add : (entry : LogEntry) → Kept Busy Busy (add_entry D entry)
  unfolding add_entry
  Busy-add entry =
      Triple-bind (Triple-lift (λ t h. h) (D.add_entry entry)) λ _. Triple-modify _ (λ t h. h)

  Busy-publish : (signal : DomainSignal) → Kept Busy Busy (publish D signal)
  Busy-publish signal = Kept-publish D (λ t h. h) signal (λ t signals h. h)

  Busy-particle : (id : Uuid) (p : Particle) → Kept Busy Busy (handle_particle D id p)
  unfolding handle_particle collect_event
  Busy-particle id (Particle.event evt) =
      Triple-bind (Busy-publish DomainSignal.event_commited)
        λ _. Triple-bind (Triple-modify _ (λ t h. h)) λ _. Busy-add _
  Busy-particle id (Particle.message m) =
      Triple-bind (Triple-modify _ (λ t h. h)) λ _. Busy-publish DomainSignal.message_received
  Busy-particle id (Particle.response r) =
      Triple-bind (Triple-modify _ (λ t h. h)) λ _. Busy-publish DomainSignal.response_received
  Busy-particle id (Particle.activity a) = Busy-add _
  Busy-particle id (Particle.foreign kind) = record { ends = λ t h. h }

  -- Whatever held before, a command that is let in or refused finds itself or another there.
  enter-Busy :
      (ctx : Context) (meta : CommandMeta) (cmd : CommandBundle)
      → Triple (λ _. Unit {0}) (enter_aggregate D ctx meta cmd) (λ _. Busy) Busy
  unfolding enter_aggregate
  enter-Busy ctx meta cmd =
      Triple-bind {Q = λ overlapping t. is_some t.active ≡ overlapping}
        (record { ends = λ t h. refl }) after
    where
      refused :
          (overlapping : Bool)
          → Triple
              (λ t. is_some t.active ≡ overlapping)
              (raise_if overlapping (Failure.internal_error "D00.110"))
              (λ _. Free)
              Busy
      refused true = record { ends = λ t h. h }
      refused false = record { ends = λ t h. h }

      after :
          (overlapping : Bool)
          → Triple
              (λ t. is_some t.active ≡ overlapping)
              (raise_if overlapping (Failure.internal_error "D00.110")
                >> modify (λ s. record s { agg_queue = []; active = some cmd })
                >> fetch_command_rootobj D ctx meta (aggroot_of cmd)
                >> pure tt)
              (λ _. Busy)
              Busy
      after overlapping =
          Triple-bind
            (Triple-bind (Triple-bind (refused overlapping) λ _. Triple-modify _ (λ t h. refl))
              λ _. Kept-fetch D (λ t h. h) ctx meta (aggroot_of cmd))
            λ _. Kept-pure D (λ t h. h) tt

  leave-Free : Triple Busy leave_aggregate (λ _. Free) Busy
  unfolding leave_aggregate
  leave-Free = Triple-bind (Kept-gets D (λ t h. h) (λ s. is_empty s.agg_queue)) λ consumed.
      Triple-bind (Triple-raise_if (λ t h. h) (not consumed) (Failure.internal_error "D00.102"))
        λ _. Triple-modify _ (λ t h. refl)

  -- A command that returns leaves the aggregate free for the next one. One that raises, wherever it
  -- does, leaves it with a command.
  pub invoke-Busy :
      (ctx : Context) (cmd : CommandBundle) (meta : CommandMeta) (s : Session)
      → After (λ _. Free) Busy (invoke_processors D ctx cmd meta s)
  unfolding invoke_processors
  invoke-Busy ctx cmd meta s = whole.ends s tt
    where
      last :
          (ps : List Processor)
          → is_empty ps ≡ false
          → Kept Free Busy (raise_if (is_empty ps) (Failure.internal_error "D00.106"))
      last [] e = absurd (cc e)
      last (p ∷ ps) e = record { ends = λ t h. h }

      whole : Triple (λ _. Unit {0}) (invoke_processors D ctx cmd meta) (λ _. Free) Busy
      whole =
          Triple-bind
            (Triple-bind (enter-Busy ctx meta cmd)
              λ _. lift-known (select (build_handler_map D.cmd_processors) cmd.command) (λ t h. h))
            λ ps. record {
              ends = λ t (e, h).
                  (body ps (select-nonempty D.cmd_processors cmd.command ps e)).ends t h;
            }
        where
          body :
              (ps : List Processor)
              → is_empty ps ≡ false
              → Triple Busy
                  (run_processors D cmd ps
                    >> (gets (λ s. s.agg_queue) >>= consume_events D cmd.id)
                    >> leave_aggregate
                    >> raise_if (is_empty ps) (Failure.internal_error "D00.106"))
                  (λ _. Free)
                  Busy
          body ps e =
              Triple-bind
                (Triple-bind
                  (Triple-bind (Kept-processors D (λ t k. k) (λ t queue k. k) Busy-particle cmd ps)
                    λ _.
                      Triple-bind (Kept-gets D (λ t k. k) (λ t. t.agg_queue))
                        (Kept-consume D (λ t k. k) (λ t queue k. k) Busy-particle cmd.id))
                  λ _. leave-Free)
                λ _. last ps e
