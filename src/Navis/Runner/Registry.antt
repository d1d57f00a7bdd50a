-- ===== src/Navis/Runner/Registry.antt =====
-- The two maps of the steps, and what every step in them satisfies.
use fluvius_py.Common.{
  ℕ, ◌≡◌, refl, sym, ◌∙◌, inl, inr, true, none, some, str_eq, eq_iff, is_some, Bool-cases,
}
use fluvius_py.Common.Dict.{Dict, get, put, get-put_eq, get-put_ne, get-put_self}
use fluvius_py.Navis.Data.{Uuid, WorkflowStep, Mutation, set_step}
use fluvius_py.Navis.Runner.Script.{Call, Engine}
use fluvius_py.Navis.Runner.State.{Runner}
use fluvius_py.Navis.Runner.Actions.{invoke}
use fluvius_py.Navis.Runner.Moves.{
  Move, Change, step_written, step_recovered, step_added, recover_update, changes, Reach, here,
  next,
}
use fluvius_py.Navis.Runner.Traces.Bodies.{invoke-Reach}

-- Every step stands under its own id and selector, and every selector leads to its step.
pub record IsRegistered (steps : Dict WorkflowStep) (stmap : Dict Uuid) : Type 0 where
  pub keyed : (id : Uuid) (d : WorkflowStep) → get id steps ≡ some d → d.id ≡ id
  pub listed :
      (id : Uuid) (d : WorkflowStep) → get id steps ≡ some d → get d.selector stmap ≡ some id
  pub routed :
      (selector id : Uuid)
      → get selector stmap ≡ some id
      → (d : WorkflowStep) × (get id steps ≡ some d) × (d.selector ≡ selector)

-- Writing a step that keeps its id and selector.
module _ {steps : Dict WorkflowStep} {stmap : Dict Uuid} (h : IsRegistered steps stmap) (k : Uuid)
    (d e : WorkflowStep) (found : get k steps ≡ some d) (same_id : e.id ≡ d.id)
    (same_selector : e.selector ≡ d.selector) where
  rewrite_keyed : (id : Uuid) (x : WorkflowStep) → get id (put k e steps) ≡ some x → x.id ≡ id
  rewrite_keyed id x p = elim (Bool-cases (str_eq k id)) [
    | inl eq ↦ cc (get-put_eq k id e steps eq, p, (eq_iff k id).0 eq, h.keyed k d found, same_id)
    | inr ne ↦ h.keyed id x (sym (get-put_ne k id e steps ne) ∙ p)
  ]

  rewrite_listed :
      (id : Uuid) (x : WorkflowStep)
      → get id (put k e steps) ≡ some x
      → get x.selector stmap ≡ some id
  rewrite_listed id x p = elim (Bool-cases (str_eq k id)) [
    | inl eq ↦
        cc (get-put_eq k id e steps eq, p, (eq_iff k id).0 eq, h.listed k d found, same_selector)
    | inr ne ↦ h.listed id x (sym (get-put_ne k id e steps ne) ∙ p)
  ]

  rewrite_routed :
      (selector id : Uuid)
      → get selector stmap ≡ some id
      → (x : WorkflowStep) × (get id (put k e steps) ≡ some x) × (x.selector ≡ selector)
  rewrite_routed selector id p =
      let (x, q, r) = h.routed selector id p in
      elim (Bool-cases (str_eq k id)) [
        | inl eq ↦
            (e, get-put_eq k id e steps eq, cc (q, r, found, (eq_iff k id).0 eq, same_selector))
        | inr ne ↦ (x, get-put_ne k id e steps ne ∙ q, r)
      ]

  rewrite-IsRegistered : IsRegistered (put k e steps) stmap
  rewrite-IsRegistered = record {
    keyed = rewrite_keyed;
    listed = rewrite_listed;
    routed = rewrite_routed;
  }

-- Adding a step under a new id and a free selector.
module _ {steps : Dict WorkflowStep} {stmap : Dict Uuid} (h : IsRegistered steps stmap)
    (d : WorkflowStep) (new : get d.id steps ≡ none) (free : get d.selector stmap ≡ none) where
  add_keyed : (id : Uuid) (x : WorkflowStep) → get id (put d.id d steps) ≡ some x → x.id ≡ id
  add_keyed id x p = elim (Bool-cases (str_eq d.id id)) [
    | inl eq ↦ cc (get-put_eq d.id id d steps eq, p, (eq_iff d.id id).0 eq)
    | inr ne ↦ h.keyed id x (sym (get-put_ne d.id id d steps ne) ∙ p)
  ]

  add_listed :
      (id : Uuid) (x : WorkflowStep)
      → get id (put d.id d steps) ≡ some x
      → get x.selector (put d.selector d.id stmap) ≡ some id
  add_listed id x p = elim (Bool-cases (str_eq d.id id)) [
    | inl eq ↦ cc (
      get-put_self d.selector d.id stmap,
      get-put_eq d.id id d steps eq,
      p,
      (eq_iff d.id id).0 eq,
    )
    | inr ne ↦
        let old = h.listed id x (sym (get-put_ne d.id id d steps ne) ∙ p) in
        elim (Bool-cases (str_eq d.selector x.selector)) [
          | inl clash ↦ absurd (cc ((eq_iff d.selector x.selector).0 clash))
          | inr other ↦ get-put_ne d.selector x.selector d.id stmap other ∙ old
        ]
  ]

  add_routed :
      (selector id : Uuid)
      → get selector (put d.selector d.id stmap) ≡ some id
      → (x : WorkflowStep) × (get id (put d.id d steps) ≡ some x) × (x.selector ≡ selector)
  add_routed selector id p = elim (Bool-cases (str_eq d.selector selector)) [
    | inl eq ↦ (
      d,
      cc (get-put_self d.id d steps, get-put_eq d.selector selector d.id stmap eq, p),
      (eq_iff d.selector selector).0 eq,
    )
    | inr ne ↦
        let (x, q, r) =
          h.routed selector id (sym (get-put_ne d.selector selector d.id stmap ne) ∙ p) in
        elim (Bool-cases (str_eq d.id id)) [
          | inl clash ↦ absurd (cc ((eq_iff d.id id).0 clash))
          | inr other ↦ (x, get-put_ne d.id id d steps other ∙ q, r)
        ]
  ]

  add-IsRegistered : IsRegistered (put d.id d steps) (put d.selector d.id stmap)
  add-IsRegistered = record { keyed = add_keyed; listed = add_listed; routed = add_routed }

module _ {E : Engine} where
  Change-IsRegistered :
      {s t : Runner} {m : Mutation}
      → Change E s m t
      → IsRegistered s.steps s.stmap
      → IsRegistered t.steps t.stmap
  unfolding set_step
  Change-IsRegistered (step_written id c d u found class w) h =
      rewrite-IsRegistered h id d (set_step u d) found refl refl
  Change-IsRegistered (step_recovered id d found broken) h =
      rewrite-IsRegistered h id d (set_step recover_update d) found refl refl
  Change-IsRegistered (step_added c id selector src key title now class new free) h =
      add-IsRegistered h _ new free
  Change-IsRegistered _ h = h

  Move-IsRegistered :
      {s t : Runner} → Move E s t → IsRegistered s.steps s.stmap → IsRegistered t.steps t.stmap
  Move-IsRegistered (changes m tx a e c) h = Change-IsRegistered c h
  Move-IsRegistered _ h = h

  pub Reach-IsRegistered :
      {s t : Runner} → Reach E s t → IsRegistered s.steps s.stmap → IsRegistered t.steps t.stmap
  Reach-IsRegistered here h = h
  Reach-IsRegistered (next r m) h = Move-IsRegistered m (Reach-IsRegistered r h)

-- In a transaction, an action that a proxy offers (a `Call`), with any hooks, keeps every step under its
-- own id and selector, and every selector leading to its step.
pub invoke-IsRegistered :
    (E : Engine) (depth : ℕ) (c : Call) (s : Runner)
    → is_some s.transaction_id ≡ true
    → IsRegistered s.steps s.stmap
    → IsRegistered (invoke E depth c s).1.steps (invoke E depth c s).1.stmap
invoke-IsRegistered E depth c s open_tx h =
    Reach-IsRegistered (invoke-Reach E depth c s open_tx).0 h
