-- ===== src/Navis/Runner/Traces/Hooks.antt =====
-- Hooks, proxies and transitions are sequences of moves, if the actions that they call are.
use fluvius_py.Common.{
  ℕ, suc, ◌≡◌, refl, String, Bool, true, false, not, Option, none, some, str_eq, any, subst,
}
use native.Mathlib.Nat.{le_refl}
use fluvius_py.Common.Dict.{get}
use fluvius_py.Navis.Data.{Uuid, WorkflowStep}
use fluvius_py.Exec.{Failure, ok, raised, ◌>>=◌}
use fluvius_py.Navis.Runner.Script.{
  StepProxy, HookContext, Reply, Call, Script, Hook, Transition, StepClass, Engine,
}
use fluvius_py.Navis.Runner.State.{Runner, Run}
use fluvius_py.Navis.Runner.Primitives.{read_clock, step_class, find_step, update_step}
use fluvius_py.Navis.Runner.Hooks.{
  put_message, make_proxy, cached_proxy, get_state_proxy, run_script, run_hook, origin_refused,
  raise_failure, run_transition, transit, to_state_update,
}
use fluvius_py.Navis.Runner.Moves.{ticks, emits, caches, Reach-one}
use fluvius_py.Navis.Runner.Traces.Rules.{
  Good, Ends, Ends-at, Ends-Move, Ends-after, Ends-raise_if, Ends-bind, Ends-if,
}
use fluvius_py.Navis.Runner.Traces.Keeps.{HasStep, Reach-HasStep}
use fluvius_py.Navis.Runner.Traces.Writes.{
  find_step_ok, step_class_ok, find_step-Ends, step_class-Ends, ticked, update_step-Ends,
}

module _ (E : Engine) where
  pub put_message-Ends :
      {d : ℕ} {s : Runner}
      → Good d s
      → (source msg : String) → Ends E d s (put_message E source msg s)
  unfolding put_message read_clock ◌>>=◌
  put_message-Ends g source msg =
      Ends-after (Reach-one ticks)
        (Ends-Move (ok tt) (emits _) (record { in_transaction = g.in_transaction; deep = g.deep }))

  make_proxy-Ends :
      {d : ℕ} {s : Runner}
      → Good d s
      → (selector : Uuid) (o : Option Uuid) → get selector s.stmap ≡ o
      → Ends E d s (make_proxy selector o s)
  unfolding make_proxy
  make_proxy-Ends g selector none h = Ends-at (raised (Failure.execution_error "P00.101")) g
  make_proxy-Ends {s = s} g selector (some id) h =
      Ends-bind (find_step id) _ (le_refl _) (find_step-Ends E g id) λ x t e r k.
        let (found, same) = find_step_ok id s e in
        let leads : get selector t.stmap ≡ some id =
          subst (λ u. get selector u.stmap ≡ some id) same h in
        unfold ◌>>=◌ in
        Ends-Move (ok (HookContext.step_proxy (record { id = id; snapshot = x })))
          (caches selector id x leads found)
          (record { in_transaction = k.in_transaction; deep = k.deep })

  cached_proxy-Ends :
      {d : ℕ} {s : Runner}
      → Good d s
      → (selector : Uuid) (o : Option StepProxy) → Ends E d s (cached_proxy selector o s)
  unfolding cached_proxy ◌>>=◌
  cached_proxy-Ends g selector (some p) = Ends-at (ok (HookContext.step_proxy p)) g
  cached_proxy-Ends {s = s} g selector none = make_proxy-Ends g selector (get selector s.stmap) refl

  pub get_state_proxy-Ends :
      {d : ℕ} {s : Runner}
      → Good d s
      → (selector : Option Uuid) → Ends E d s (get_state_proxy selector s)
  unfolding get_state_proxy ◌>>=◌
  get_state_proxy-Ends {s = s} g none = Ends-at (ok s.state_proxy) g
  get_state_proxy-Ends {s = s} g (some selector) =
      cached_proxy-Ends g selector (get selector s.step_proxies)

-- What is asked of the actions that a hook calls.
abbrev pub Traced : Engine → (Call → Run Reply) → Type 0
Traced E invoke = (c : Call) (d : ℕ) (s : Runner) → Good d s → Ends E d s (invoke c s)

module _ (E : Engine) (invoke : Call → Run Reply) (traced : Traced E invoke) where
  pub run_script-Ends :
      (source : String) (script : Script) {d : ℕ} {s : Runner}
      → Good d s
      → Ends E d s (run_script E invoke source script s)
  unfolding run_script
  run_script-Ends source Script.finish g = Ends-at (ok tt) g
  run_script-Ends source (Script.emit msg rest) g =
      Ends-bind (put_message E source msg) _ (le_refl _) (put_message-Ends E g source msg)
        λ a t e r h. run_script-Ends source rest h
  run_script-Ends source (Script.throw e) g = Ends-at (raised e) g
  run_script-Ends source (Script.call c k) {d} {s} g =
      let first = traced c d s g in
      Ends-after first.reach (run_script-Ends source (k (invoke c s).0) first.good)

  pub run_hook-Ends :
      (h : Option Hook) (context : HookContext) {d : ℕ} {s : Runner}
      → Good d s
      → Ends E d s (run_hook E invoke h context s)
  unfolding run_hook
  run_hook-Ends none context g = Ends-at (ok tt) g
  run_hook-Ends (some h) context g = run_script-Ends h.qualname (h.body context) g

  raise_failure-Ends :
      (o : Option Failure) {d : ℕ} {s : Runner} → Good d s → Ends E d s (raise_failure o s)
  unfolding raise_failure
  raise_failure-Ends none g = Ends-at (ok tt) g
  raise_failure-Ends (some e) g = Ends-at (raised e) g

  run_transition-Ends :
      (t : Option Transition) (x : WorkflowStep) {d : ℕ} {s : Runner}
      → Good d s
      → Ends E d s (run_transition E invoke t x s)
  unfolding run_transition
  run_transition-Ends none x g = Ends-at (ok tt) g
  run_transition-Ends (some t) x g =
      Ends-bind (raise_failure (origin_refused t x.stm_state)) _ (le_refl _)
        (raise_failure-Ends _ g)
        λ a u e r h.
          Ends-bind (get_state_proxy (some x.selector)) _ (le_refl _) (get_state_proxy-Ends E h _)
            λ context v e' r' h'. run_script-Ends t.qualname (t.body context x.stm_state) h'

  not-false : (b : Bool) → not b ≡ false → b ≡ true
  not-false true h = refl
  not-false false h = cc

  write-Ends :
      (id : Uuid) (key to_state : String) (c : StepClass) {d : ℕ} {s : Runner}
      → Good (suc d) s
      → get key E.steps ≡ some c
      → any (str_eq to_state) c.states ≡ true
      → HasStep id key s
      → Ends E
          (suc d)
          s
          ((read_clock E >>= λ now. update_step E id (to_state_update to_state now)) s)
  unfolding ◌>>=◌ read_clock
  write-Ends id key to_state c {s = s} g class fits (x, found, same) =
      Ends-after (Reach-one ticks) (
        update_step-Ends E (ticked E g) id x c found (rw same class) to_state (E.timestamp s.reads)
          fits)

  -- `_transit` of a step that is there
  pub transit-Ends :
      (id : Uuid) (x : WorkflowStep) (to_state : String) {d : ℕ} {s : Runner}
      → Good (suc d) s
      → get id s.steps ≡ some x
      → Ends E (suc d) s (transit E invoke id x to_state s)
  unfolding transit
  transit-Ends id x to_state {d} {s} g found =
      Ends-bind (step_class E x.step_key) _ (le_refl _) (step_class-Ends E g x.step_key)
        λ c t e r h.
          let class = (step_class_ok E x.step_key e).0 in
          let there = Reach-HasStep id x.step_key r (x, found, refl) in
          unfold ◌>>=◌ in
          Ends-raise_if (not (any (str_eq to_state) c.states)) (Failure.execution_error "P00.102") _
            h
            λ fits. Ends-if (str_eq to_state x.stm_state) _ _ (Ends-at (ok tt) h) (
              Ends-bind (run_transition E invoke (get to_state c.transitions) x) _ (le_refl _)
                (run_transition-Ends (get to_state c.transitions) x h)
                λ a u e' r' h'.
                  write-Ends id x.step_key to_state c h' class (not-false _ fits)
                    (Reach-HasStep id x.step_key r' there))
