-- ===== src/Navis/Runner/StepStates.antt =====
-- What the engine keeps of each step: its status, its state, and its index.
use fluvius_py.Common.{
  ℕ, suc, ◌+◌, ◌≡◌, refl, ◌≢◌, sym, ◌∙◌, ap, subst, ◌⊎◌, inl, inr, String, true, false, some, [],
  ◌∷◌, ◌++◌, arith, str_eq, eq_iff, any, length, is_some, Bool-cases,
}
use fluvius_py.Common.Dict.{Dict, get, put, put_new}
use fluvius_py.Navis.Status.{StepStatus}
use fluvius_py.Navis.Data.{Uuid, WorkflowStep, Mutation, StepUpdate, set_step}
use fluvius_py.Navis.Runner.Script.{StepClass, Call, Engine}
use fluvius_py.Navis.Runner.State.{Runner}
use fluvius_py.Navis.Runner.Primitives.{begin_state, finish_state}
use fluvius_py.Navis.Runner.Actions.{invoke}
use fluvius_py.Navis.Runner.Moves.{
  Move, Change, StepWrite, finishes, resets, enters, step_written, step_recovered, step_added,
  recover_update, changes, Reach, here, next,
}
use fluvius_py.Navis.Runner.Traces.Bodies.{invoke-Reach}

-- `Step.__init_subclass__` puts the two states of the engine before those of the class.
abbrev pub HasEngineStates : Engine → Type 0
HasEngineStates E =
    (key : String) (c : StepClass)
    → get key E.steps ≡ some c
    → (any (str_eq begin_state) c.states ≡ true) × (any (str_eq finish_state) c.states ≡ true)

-- A step is active or completed, it is completed in the state `_FINISHED`, and its state is one that
-- its class declares.
pub record IsSound (E : Engine) (d : WorkflowStep) : Type 0 where
  pub live : (d.status ≡ StepStatus.active) ⊎ (d.status ≡ StepStatus.completed)
  pub done : d.stm_state ≡ finish_state → d.status ≡ StepStatus.completed
  pub declared :
      (c : StepClass) → get d.step_key E.steps ≡ some c → any (str_eq d.stm_state) c.states ≡ true

-- every step, in the order of creation, with its index counted from `n + 1`
abbrev pub AllSound : Engine → ℕ → Dict WorkflowStep → Type 0
AllSound E n [] = Unit {0}
AllSound E n ((k, d) ∷ steps) = IsSound E d × (d.index ≡ suc n) × AllSound E (suc n) steps

unwrap_eq {ℓ} : {A : Type ℓ} {a b : A} → some a ≡ some b → a ≡ b
unwrap_eq h = cc

AllSound-put :
    (E : Engine) (k : Uuid) (d e : WorkflowStep) (n : ℕ) (steps : Dict WorkflowStep)
    → get k steps ≡ some d
    → e.index ≡ d.index
    → (IsSound E d → IsSound E e)
    → AllSound E n steps
    → AllSound E n (put k e steps)
unfolding get put
AllSound-put E k d e n [] found same sound h = absurd (cc found)
AllSound-put E k d e n ((j, x) ∷ steps) found same sound (hx, ix, h) =
    elim (Bool-cases (str_eq j k)) [
      | inl eq ↦
          let here_d : x ≡ d = unwrap_eq (rw eq at found) in
          rw eq (
            sound (subst (IsSound E) here_d hx),
            same ∙ sym (ap (λ (y : WorkflowStep). y.index) here_d) ∙ ix,
            h,
          )
      | inr ne ↦ rw ne (hx, ix, AllSound-put E k d e (suc n) steps (rw ne at found) same sound h)
    ]

AllSound-append :
    (E : Engine) (k : Uuid) (e : WorkflowStep) (n : ℕ) (steps : Dict WorkflowStep)
    → e.index ≡ n + length steps + 1
    → IsSound E e
    → AllSound E n steps
    → AllSound E n (steps ++ (k, e) ∷ [])
AllSound-append E k e n [] i s h = (s, omega (arith, i), tt)
AllSound-append E k e n ((j, x) ∷ steps) i s (hx, ix, h) =
    (hx, ix, AllSound-append E k e (suc n) steps (omega (arith, i)) s h)

module _ (E : Engine) (engine : HasEngineStates E) where
  same_class :
      (key state : String) {c c' : StepClass}
      → get key E.steps ≡ some c
      → any (str_eq state) c.states ≡ true
      → get key E.steps ≡ some c'
      → any (str_eq state) c'.states ≡ true
  same_class key state p fits q =
      subst (λ (x : StepClass). any (str_eq state) x.states ≡ true) (unwrap_eq (sym p ∙ q)) fits

  not_finish : {state : String} → str_eq state finish_state ≡ false → state ≢ finish_state
  not_finish {state} h e = cc ((eq_iff state finish_state).1 e)

  write-IsSound :
      (c : StepClass) (d : WorkflowStep) (u : StepUpdate)
      → get d.step_key E.steps ≡ some c
      → StepWrite c d u
      → IsSound E d
      → IsSound E (set_step u d)
  unfolding set_step
  write-IsSound c d u class (finishes now later fits) h = record {
    live = inr refl;
    done = λ _. refl;
    declared = λ c' p. same_class _ _ class fits p;
  }
  write-IsSound c d u class (resets now fits) h = record {
    live = h.live;
    done = λ p. absurd (not_finish {state = begin_state} refl p);
    declared = λ c' p. same_class _ _ class fits p;
  }
  write-IsSound c d u class (enters now state other fits) h = record {
    live = inl refl;
    done = λ p. absurd (not_finish other p);
    declared = λ c' p. same_class _ _ class fits p;
  }

  recover-IsSound :
      (d : WorkflowStep)
      → d.status ≡ StepStatus.error
      → IsSound E d
      → IsSound E (set_step recover_update d)
  unfolding set_step
  recover-IsSound d broken h = absurd (ground (arith, h.live))

  Change-AllSound :
      {s t : Runner} {m : Mutation} → Change E s m t → AllSound E 0 s.steps → AllSound E 0 t.steps
  unfolding set_step
  Change-AllSound {s} (step_written id c d u found class w) h =
      AllSound-put E id d (set_step u d) 0 s.steps found refl (write-IsSound c d u class w) h
  Change-AllSound {s} (step_recovered id d found broken) h =
      AllSound-put E id d (set_step recover_update d) 0 s.steps found refl
        (recover-IsSound d broken) h
  Change-AllSound {s} (step_added c id selector src key title now class new free) h =
      rw (put_new id _ s.steps new) (
        AllSound-append E id _ 0 s.steps (omega arith)
          (record {
            live = inl refl;
            done = λ p. absurd (not_finish {state = begin_state} refl p);
            declared = λ c' p. same_class _ _ class (engine key c class).0 p;
          })
          h)
  Change-AllSound _ h = h

  Move-AllSound : {s t : Runner} → Move E s t → AllSound E 0 s.steps → AllSound E 0 t.steps
  Move-AllSound (changes m tx a e c) h = Change-AllSound c h
  Move-AllSound _ h = h

  pub Reach-AllSound : {s t : Runner} → Reach E s t → AllSound E 0 s.steps → AllSound E 0 t.steps
  Reach-AllSound here h = h
  Reach-AllSound (next r m) h = Move-AllSound m (Reach-AllSound r h)

-- In a transaction, and if every class of steps has the two states of the engine, an action that a
-- proxy offers (a `Call`), with any hooks, keeps every step active or completed, completed if it is in the state `_FINISHED`, in a state
-- that its class declares, and indexed from 1 in the order of creation.
pub invoke-AllSound :
    (E : Engine) (depth : ℕ) (c : Call) (s : Runner)
    → HasEngineStates E
    → is_some s.transaction_id ≡ true
    → AllSound E 0 s.steps
    → AllSound E 0 (invoke E depth c s).1.steps
invoke-AllSound E depth c s engine open_tx h =
    Reach-AllSound E engine (invoke-Reach E depth c s open_tx).0 h
