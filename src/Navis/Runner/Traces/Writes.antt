-- ===== src/Navis/Runner/Traces/Writes.antt =====
-- The private methods are sequences of moves.
use fluvius_py.Common.{
  ℕ, suc, ◌+◌, subst, ◌≡◌, refl, sym, String, true, false, Option, none, some, [], ◌∷◌, arith,
  str_eq, eq_iff, any, inl, inr, Bool-cases,
}
use fluvius_py.Common.Dict.{get, put, update, get-put_self}
use fluvius_py.Navis.Status.{StepStatus}
use fluvius_py.Navis.Data.{
  Uuid, Time, Memory, WorkflowStep, Mutation, MutateCall, StateUpdate, StepUpdate, set_step,
}
use fluvius_py.Exec.{Failure, Result, ok, raised, ◌>>=◌}
use fluvius_py.Navis.Runner.Script.{StepClass, Engine}
use fluvius_py.Navis.Runner.State.{Runner}
use fluvius_py.Navis.Runner.Primitives.{
  begin_state, finish_state, mutate, read_clock, random_uuid, status_locked, set_state, find_step,
  step_class, complete_update, update_step, set_memory, set_output, set_step_memory, step_memory,
  write_step,
}
use fluvius_py.Navis.Runner.Hooks.{to_state_update}
use fluvius_py.Navis.Runner.Moves.{
  StateWrite, StepWrite, finishes, resets, enters, ticks, state_written, step_written,
  step_recovered, recover_update, memory_written, output_written, step_memory_written, Reach-one,
}
use fluvius_py.Navis.Runner.Traces.Rules.{
  Good, Ends, Ends-at, Ends-Move, Ends-after, Ends-raise_if, Ends-mutate,
}

pub find_step_ok :
    (id : Uuid) (s : Runner) {t : Runner} {d : WorkflowStep}
    → find_step id s ≡ (ok d, t)
    → (get id t.steps ≡ some d) × (s ≡ t)
unfolding find_step
find_step_ok id s h = ground arith

module _ (E : Engine) where
  pub step_class_ok :
      (key : String) {s t : Runner} {c : StepClass}
      → step_class E key s ≡ (ok c, t)
      → (get key E.steps ≡ some c) × (s ≡ t)
  unfolding step_class
  step_class_ok key {s} h = ground arith

  module _ {d : ℕ} {s : Runner} (g : Good d s) where
    pub find_step-Ends : (id : Uuid) → Ends E d s (find_step id s)
    unfolding find_step
    find_step-Ends id = go (get id s.steps)
      where
        go :
            (o : Option WorkflowStep)
            → Ends E d s (
                let r : Result WorkflowStep × Runner = elim o [
                  | none ↦ (raised (Failure.key_error id), s)
                  | some x ↦ (ok x, s)
                ] in
                r)
        go none = Ends-at (raised (Failure.key_error id)) g
        go (some x) = Ends-at (ok x) g

    pub step_class-Ends : (key : String) → Ends E d s (step_class E key s)
    unfolding step_class
    step_class-Ends key = go (get key E.steps)
      where
        go :
            (o : Option StepClass)
            → Ends E d s (
                let r : Result StepClass × Runner = elim o [
                  | none ↦ (raised (Failure.key_error key), s)
                  | some x ↦ (ok x, s)
                ] in
                r)
        go none = Ends-at (raised (Failure.key_error key)) g
        go (some x) = Ends-at (ok x) g

    pub ticked : Good d (record s { reads = s.reads + 1 })
    ticked = record { in_transaction = g.in_transaction; deep = g.deep }

    pub read_clock-Ends : Ends E d s (read_clock E s)
    unfolding read_clock
    read_clock-Ends = Ends-Move (ok (E.timestamp s.reads)) ticks ticked

    pub random_uuid-Ends : Ends E d s (random_uuid E s)
    unfolding random_uuid
    random_uuid-Ends = Ends-Move (ok (E.uuid_genr s.reads)) ticks ticked

  module _ {d : ℕ} {s : Runner} (g : Good (suc d) s) where
    -- `_set_state` with arguments that get through its guard only as `StateWrite` says
    pub set_state-Ends :
        (u : StateUpdate)
        → (status_locked u s.workflow.status ≡ false → StateWrite s.workflow u)
        → Ends E (suc d) s (set_state u s)
    unfolding set_state ◌>>=◌
    set_state-Ends u lawful =
        Ends-raise_if (status_locked u s.workflow.status) (Failure.execution_error "P00.006") _ g
          λ free. Ends-mutate s _ (Mutation.set_state u) g (state_written u (lawful free)) refl refl

    pub set_memory-Ends : (kvs : Memory) → Ends E (suc d) s (set_memory kvs s)
    unfolding set_memory ◌>>=◌
    set_memory-Ends [] = Ends-at (ok tt) g
    set_memory-Ends (kv ∷ kvs) = Ends-mutate s _ _ g (memory_written (kv ∷ kvs)) refl refl

    pub set_output-Ends : (kvs : Memory) → Ends E (suc d) s (set_output kvs s)
    unfolding set_output ◌>>=◌
    set_output-Ends [] = Ends-at (ok tt) g
    set_output-Ends (kv ∷ kvs) = Ends-mutate s _ _ g (output_written (kv ∷ kvs)) refl refl

    pub set_step_memory-Ends :
        (id : Uuid) (kvs : Memory) → Ends E (suc d) s (set_step_memory id kvs s)
    unfolding set_step_memory ◌>>=◌
    set_step_memory-Ends id [] = Ends-at (ok tt) g
    set_step_memory-Ends id (kv ∷ kvs) =
        rw (get-put_self id (update (step_memory id s) (kv ∷ kvs)) s.stepsm)
          (Ends-mutate s _ _ g (step_memory_written id (kv ∷ kvs)) refl refl)

    abbrev written : Uuid → WorkflowStep → StepUpdate → Runner
    written id x u = record s { steps = put id (set_step u x) s.steps }

    mutate_step :
        (id : Uuid) (x : WorkflowStep) (c : StepClass) (u : StepUpdate)
        → get id s.steps ≡ some x
        → get x.step_key E.steps ≡ some c
        → StepWrite c x u
        → Ends E
            (suc d)
            s
            (mutate (MutateCall.fields_of (Mutation.update_step id u)) (write_step id u s))
    mutate_step id x c u found class w =
        rw (found, write_step)
          (Ends-mutate s (written id x u) _ g (step_written id c x u found class w) refl refl)

  module _ {d : ℕ} {s : Runner} (g : Good (suc d) s) (id : Uuid) (x : WorkflowStep) (c : StepClass)
      (found : get id s.steps ≡ some x) (class : get x.step_key E.steps ≡ some c) where
    abbrev Fits : String → Type 0
    Fits to_state =
        (now : Time)
        → any (str_eq to_state) c.states ≡ true
        → Ends E (suc d) s (update_step E id (to_state_update to_state now) s)

    to_finish : Fits finish_state
    unfolding update_step complete_update read_clock ◌>>=◌
    to_finish now fits =
        Ends-after (Reach-one ticks)
          (mutate_step (ticked g) id x c _ found class (finishes now (E.timestamp s.reads) fits))

    to_begin : Fits begin_state
    unfolding update_step complete_update ◌>>=◌
    to_begin now fits = mutate_step g id x c _ found class (resets now fits)

    to_other :
        (to_state : String)
        → str_eq to_state finish_state ≡ false
        → str_eq to_state begin_state ≡ false
        → Fits to_state
    unfolding update_step complete_update ◌>>=◌
    to_other to_state e f now fits =
        rw (e, f) (mutate_step g id x c _ found class (enters now to_state e fits))

    -- `_update_step` to a state of the step's class
    pub update_step-Ends : (to_state : String) → Fits to_state
    update_step-Ends to_state = elim (Bool-cases (str_eq to_state finish_state)) [
      | inl e ↦ subst Fits (sym ((eq_iff to_state finish_state).0 e)) to_finish
      | inr e ↦ elim (Bool-cases (str_eq to_state begin_state)) [
        | inl f ↦ subst Fits (sym ((eq_iff to_state begin_state).0 f)) to_begin
        | inr f ↦ to_other to_state e f
      ]
    ]

  pub recover_step-Ends :
      {d : ℕ} {s : Runner}
      → Good (suc d) s
      → (id : Uuid) (x : WorkflowStep) → get id s.steps ≡ some x
      → x.status ≡ StepStatus.error
      → Ends E (suc d) s (update_step E id recover_update s)
  unfolding update_step complete_update ◌>>=◌
  recover_step-Ends {s = s} g id x found broken =
      rw (found, write_step)
        (Ends-mutate s (written g id x recover_update) _ g (step_recovered id x found broken) refl
          refl)
