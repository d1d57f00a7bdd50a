-- ===== src/Navis/Runner/Traces/NewStep.antt =====
-- Adding a step is a sequence of moves.
use fluvius_py.Common.{ℕ, suc, ◌≡◌, refl, String, false, Option, none, some, is_some, or_default}
use native.Mathlib.Nat.{le_refl}
use fluvius_py.Common.Dict.{get}
use fluvius_py.Navis.Data.{Uuid, Time, WorkflowStep, Mutation, MutateCall}
use fluvius_py.Exec.{Failure, ok, pure, bind-ok, ◌>>=◌}
use fluvius_py.Navis.Runner.Script.{StepClass, Engine}
use fluvius_py.Navis.Runner.State.{Runner}
use fluvius_py.Navis.Runner.Primitives.{
  mutate, read_clock, step_class, create_step, add_step, new_step_id, new_step_data, store_step,
}
use fluvius_py.Navis.Runner.Moves.{step_added, ticks, Reach-one}
use fluvius_py.Navis.Runner.Traces.Rules.{
  Good, Ends, Ends-at, Ends-after, Ends-raise_if, Ends-bind, Ends-mutate,
}
use fluvius_py.Navis.Runner.Traces.Writes.{step_class_ok, step_class-Ends, ticked}

is_none {ℓ} : {A : Type ℓ} (o : Option A) → is_some o ≡ false → o ≡ none
is_none none h = refl
is_none (some a) h = cc

step_class_eq :
    (E : Engine) (key : String) (s : Runner) {c : StepClass}
    → get key E.steps ≡ some c
    → step_class E key s ≡ (ok c, s)
unfolding step_class
step_class_eq E key s h = rw (h, step_class)

create_step_ok :
    (E : Engine) (d : WorkflowStep) (s : Runner) {c : StepClass}
    → get d.step_key E.steps ≡ some c
    → create_step E d s ≡ (ok tt, store_step d s)
unfolding create_step
create_step_ok E d s h = bind-ok _ _ (step_class_eq E d.step_key s h)

module _ (E : Engine) {d : ℕ} {s : Runner} (g : Good (suc d) s) where
  store_new :
      (c : StepClass) (id selector : Uuid) (src : Option Uuid) (key : String)
      (title : Option String) (now : Time)
      → get key E.steps ≡ some c
      → get id s.steps ≡ none
      → get selector s.stmap ≡ none
      → let x = new_step_data c id selector src key title now s in
        Ends E (suc d) s (
          (create_step E x >>= λ _.
          mutate (MutateCall.fields_of (Mutation.add_step x)) >>= λ _. pure x)
            s)
  unfolding ◌>>=◌
  store_new c id selector src key title now class new free =
      let x = new_step_data c id selector src key title now s in
      let m = Mutation.add_step x in
      rw (create_step_ok E x s class) (
        Ends-bind (λ _. mutate (MutateCall.fields_of m) (store_step x s)) (λ _. pure x) (le_refl _)
          (Ends-mutate s (store_step x s) m g
            (step_added c id selector src key title now class new free) refl refl)
          (λ a t e r h. Ends-at (ok x) h))

module _ (E : Engine) where
  -- `_add_step`, for any step that it is asked to add
  pub add_step-Ends :
      {d : ℕ} {s : Runner}
      → Good (suc d) s
      → (src : Option Uuid) (key : String) (selector : Option Uuid) (title : Option String)
      → Ends E (suc d) s (add_step E src key selector title s)
  unfolding add_step
  add_step-Ends {d} {s} g src key selector title =
      Ends-bind (step_class E key) _ (le_refl _) (step_class-Ends E g key) λ c t e r h.
        let id = new_step_id E c key t in
        let sel = or_default selector id in
        unfold ◌>>=◌ in
        Ends-raise_if (is_some (get id t.steps)) (Failure.execution_error "P00.017") _ h λ new.
          Ends-raise_if (is_some (get sel t.stmap)) (Failure.execution_error "P011.07") _ h λ free.
            unfold read_clock in
            Ends-after (Reach-one ticks) (
              store_new E (ticked E h) c id sel src key title (E.timestamp t.reads)
                (step_class_ok E key e).0 (is_none _ new) (is_none _ free))
