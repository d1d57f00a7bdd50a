-- ===== src/Navis/Runner/Transactions.antt =====
-- The methods that only a manager calls: their runs as moves, and what a transaction leaves open.
use fluvius_py.Common.{
  ℕ, ◌≡◌, refl, ◌∙◌, ap, String, true, false, Option, none, some, List, [], ◌∷◌, arith, is_some,
}
use native.Mathlib.Nat.{le_refl}
use fluvius_py.Navis.Status.{active_workflows}
use fluvius_py.Navis.Data.{Uuid, MutateCall, Mutation, StateUpdate, set_workflow}
use fluvius_py.Exec.{Failure, Result, ok, raised, pure, bind-raised, ◌>>=◌}
use fluvius_py.Navis.Runner.Script.{Reply, Call, Engine}
use fluvius_py.Navis.Runner.State.{ActionContext, Runner, Run}
use fluvius_py.Navis.Runner.Primitives.{mutate, mutate_at, mutate_in, set_state, status_locked}
use fluvius_py.Navis.Runner.Hooks.{get_state_proxy, run_hook}
use fluvius_py.Navis.Runner.Actions.{invoke}
use fluvius_py.Navis.Runner.Lifecycle.{
  Trigger, trigger_selector, trigger_body, trigger, transaction, update_workflow, del_participant,
  del_participant_body,
}
use fluvius_py.Navis.Runner.Moves.{Reach}
use fluvius_py.Navis.Runner.Traces.Rules.{Good, Ends-at, Ends-bind}
use fluvius_py.Navis.Runner.Traces.Hooks.{get_state_proxy-Ends, run_hook-Ends}
use fluvius_py.Navis.Runner.Traces.Actions.{Body, workflow_action-Ends}
use fluvius_py.Navis.Runner.Traces.Bodies.{invoke-Ends, invoke-Reach}
use fluvius_py.Navis.Runner.Faults.{Raises, Raises-first, workflow_action-Raises}

module _ (E : Engine) (depth : ℕ) where
  trigger-Body : (t : Trigger) → Body E active_workflows (trigger_body E depth t)
  unfolding trigger_body
  trigger-Body t d s g allowed =
      Ends-bind (get_state_proxy (trigger_selector t)) _ (le_refl _)
        (get_state_proxy-Ends E g (trigger_selector t))
        λ context u e r h.
          Ends-bind (run_hook E (invoke E depth) (some t.handler) context) (λ _. pure Reply.runner)
            (le_refl _)
            (run_hook-Ends E (invoke E depth) (invoke-Ends E depth) (some t.handler) context h)
            λ a v e' r' h'. Ends-at (ok Reply.runner) h'

  zero_deep : {s : Runner} → is_some s.transaction_id ≡ true → Good 0 s
  zero_deep h = record { in_transaction = h; deep = omega arith }

  -- Handling an event in a transaction, whatever its handler and the hooks do, is a sequence of moves.
  pub trigger-Reach :
      (t : Trigger) (s : Runner)
      → is_some s.transaction_id ≡ true
      → Reach E s (trigger E depth t s).1
  unfolding trigger
  trigger-Reach t s h =
      (workflow_action-Ends E (invoke E depth) (invoke-Ends E depth) _ _ _ _ (trigger-Body t)
        (zero_deep h)).reach

  -- Removing a participant raises: the arguments have a field that the class does not have.
  invalid_call :
      (role : String) (user : Uuid) (tx : Option Uuid) (stack : List ActionContext) (s : Runner)
      → Raises (mutate_at (MutateCall.del_participant_call user role) tx stack s)
  unfolding mutate_at mutate_in
  invalid_call role user none stack s = (Failure.execution_error "P00.010", refl)
  invalid_call role user (some tx) [] s = (Failure.execution_error "P00.016", refl)
  invalid_call role user (some tx) (a ∷ stack) s = (Failure.validation_error, refl)

  -- A participant cannot be removed: the mutation is given a role, which its class forbids.
  pub del_participant-Raises :
      (role : String) (user : Uuid) (s : Runner) → Raises (del_participant E depth role user s)
  unfolding del_participant del_participant_body mutate
  del_participant-Raises role user s =
      workflow_action-Raises E (invoke E depth) _ _ _ _ s λ t e allowed.
        Raises-first (λ _. pure Reply.runner) (mutate (MutateCall.del_participant_call user role)) t
          (invalid_call role user t.transaction_id t.action_context t)

mutate_idle :
    (c : MutateCall) (t : Runner) {tx : Uuid}
    → t.transaction_id ≡ some tx
    → t.action_context ≡ []
    → mutate c t ≡ (raised (Failure.execution_error "P00.016"), t)
unfolding mutate mutate_at
mutate_idle c t {tx} p q =
    ap (λ o. mutate_at c o t.action_context t) p ∙ ap (λ stack. mutate_at c (some tx) stack t) q

set_state_idle :
    (u : StateUpdate) (s : Runner) {tx : Uuid}
    → s.transaction_id ≡ some tx
    → s.action_context ≡ []
    → status_locked u s.workflow.status ≡ false
    → set_state u s ≡ (
      raised (Failure.execution_error "P00.016"),
      record s { workflow = set_workflow u s.workflow },
    )
unfolding set_state ◌>>=◌
set_state_idle u s p q free = rw free (
    mutate_idle (MutateCall.fields_of (Mutation.set_state u))
      (record s { workflow = set_workflow u s.workflow }) p q)

-- In a transaction but outside of an action, and where the guard of `_set_state` lets the status be
-- written, `update_workflow` raises P00.016, and it has changed the workflow by then.
pub update_workflow_lem :
    (E : Engine) (u : StateUpdate) (tx : Uuid) (s : Runner)
    → s.transaction_id ≡ some tx
    → s.action_context ≡ []
    → status_locked u s.workflow.status ≡ false
    → update_workflow E u s ≡ (
      raised (Failure.execution_error "P00.016"),
      record s { workflow = set_workflow u s.workflow },
    )
unfolding update_workflow
update_workflow_lem E u tx s open_tx idle free =
    bind-raised (set_state u) (λ _. pure Reply.runner) (set_state_idle u s open_tx idle free)

-- what `transaction` does with the result of its body
abbrev closed : {A : Type 0} → Result A × Runner → Result A × Runner
closed (ok a, t) = (ok a, record t { transaction_id = none })
closed (raised e, t) = (raised e, t)

closes-resume :
    {A : Type 0} (E : Engine) (r : Result A × Runner)
    → ((λ (_ : Runner). r) >>= λ a.
          (λ (s : Runner). (ok tt, record s { transaction_id = none })) >>= λ (_ : Unit {0}).
          pure a)
        r.1
      ≡ closed r
unfolding ◌>>=◌
closes-resume E (ok a, t) = refl
closes-resume E (raised e, t) = refl

transaction_lem :
    {A : Type 0} (E : Engine) (id : Uuid) (body : Run A) (s : Runner)
    → s.transaction_id ≡ none
    → transaction E id body s ≡ closed (body (record s { transaction_id = some id }))
unfolding transaction ◌>>=◌
transaction_lem E id body s idle =
    rw (ap is_some idle) (closes-resume E (body (record s { transaction_id = some id })))

transaction_busy :
    {A : Type 0} (E : Engine) (id : Uuid) (body : Run A) (s : Runner)
    → is_some s.transaction_id ≡ true
    → transaction E id body s ≡ (raised (Failure.execution_error "P00.009"), s)
unfolding transaction ◌>>=◌
transaction_busy E id body s busy = rw busy

raised_open :
    {A : Type 0} (r : Result A × Runner) (e : Failure)
    → (closed r).0 ≡ raised e
    → is_some r.1.transaction_id ≡ true
    → is_some (closed r).1.transaction_id ≡ true
raised_open (ok a, t) e h k = cc
raised_open (raised x, t) e h k = k

ok_closed :
    {A : Type 0} (r : Result A × Runner) (a : A)
    → (closed r).0 ≡ ok a
    → (closed r).1.transaction_id ≡ none
ok_closed (ok b, t) a h = refl
ok_closed (raised x, t) a h = cc

-- On a runner with no open transaction, a transaction around an action that a proxy offers closes if the
-- action returns. If it raises, the transaction stays open, and every later transaction is refused
-- and changes nothing.
pub transaction_outcome :
    (E : Engine) (id : Uuid) (depth : ℕ) (c : Call) (s : Runner)
    → s.transaction_id ≡ none
    → let after = transaction E id (invoke E depth c) s in
      ((a : Reply) → after.0 ≡ ok a → after.1.transaction_id ≡ none)
      × ((e : Failure)
          → after.0 ≡ raised e
          → (later : Uuid) (body : Run Reply)
          → transaction E later body after.1
            ≡ (raised (Failure.execution_error "P00.009"), after.1))
transaction_outcome E id depth c s idle =
    let r = invoke E depth c (record s { transaction_id = some id }) in
    rw (transaction_lem E id (invoke E depth c) s idle) (
      λ a h. ok_closed r a h,
      λ e h later body. transaction_busy E later body (closed r).1 (
          raised_open r e h
            (invoke-Reach E depth c (record s { transaction_id = some id }) refl).1),
    )
