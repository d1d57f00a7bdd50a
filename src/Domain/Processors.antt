-- ===== src/Domain/Processors.antt =====
-- The processors of a command keep what each action and each particle that is handled keeps.
use fluvius_py.Common.{Option, none, some, List, [], ◌∷◌}
use fluvius_py.Exec.{Triple-bind, Triple-attempt, Triple-modify, Triple-lift, Kept}
use fluvius_py.Domain.Entities.{
  Uuid, Value, CommandBundle, AggregateRoot, EventRecord, Particle, Script, Processor,
}
use fluvius_py.Domain.Session.{Domain, Session, Run}
use fluvius_py.Domain.Aggregate.{aggroot_of, create_response}
use fluvius_py.Domain.Process.{
  handle_particle, handle_yield, run, respond, run_processor, run_processors, consume_events,
}
use fluvius_py.Domain.Frame.{Kept-pure, Kept-action}

module _ {P F : Session → Type 0} (D : Domain) (fail : (t : Session) → P t → F t)
    (keep : (t : Session) (queue : List EventRecord) → P t → P (record t { agg_queue = queue }))
    (particle : (id : Uuid) (p : Particle) → Kept P F (handle_particle D id p)) where
  Kept-yield : (id : Uuid) (y : Option Particle) → Kept P F (handle_yield D id y)
  Kept-yield id none = Kept-pure D fail tt
  Kept-yield id (some p) = particle id p

  Kept-run :
      {Y R : Type 0} (handle : Y → Run Unit) (root : AggregateRoot) (b : Script Y R)
      → ((y : Y) → Kept P F (handle y))
      → Kept P F (run D handle root b)
  unfolding run
  Kept-run handle root (Script.finish r) h = Kept-pure D fail r
  Kept-run handle root (Script.throw e) h = record { ends = fail }
  Kept-run handle root (Script.emit y b) h = Triple-bind (h y) λ _. Kept-run handle root b h
  Kept-run handle root (Script.act call b) h =
      Triple-attempt (Kept-action D (λ t k. k) keep root call)
        λ given. Kept-run handle root (b given) h

  Kept-respond : (id : Uuid) (v : Option Value) → Kept P F (respond D id v)
  Kept-respond id none = Kept-pure D fail tt
  Kept-respond id (some value) =
      Triple-bind (Triple-lift fail (create_response D value))
        λ r. particle id (Particle.response r)

  Kept-processor : (cmd : CommandBundle) (p : Processor) → Kept P F (run_processor D cmd p)
  unfolding run_processor
  Kept-processor cmd (Processor.generator f) =
      Kept-run (handle_yield D cmd.id) (aggroot_of cmd) (f cmd) (Kept-yield cmd.id)
  Kept-processor cmd (Processor.function f) =
      Triple-bind (Kept-run (λ e. absurd e) (aggroot_of cmd) (f cmd) (λ e. absurd e))
        (Kept-respond cmd.id)

  pub Kept-processors :
      (cmd : CommandBundle) (ps : List Processor) → Kept P F (run_processors D cmd ps)
  unfolding run_processors
  Kept-processors cmd [] = Kept-pure D fail tt
  Kept-processors cmd (p ∷ ps) = Triple-bind (Kept-processor cmd p) λ _. Kept-processors cmd ps

  pub Kept-consume : (id : Uuid) (evts : List EventRecord) → Kept P F (consume_events D id evts)
  unfolding consume_events
  Kept-consume id [] = Kept-pure D fail tt
  Kept-consume id (evt ∷ evts) =
      Triple-bind
        (Triple-bind (Triple-modify _ (λ t h. keep t _ h)) λ _. particle id (Particle.event evt))
        λ _. Kept-consume id evts
