-- ===== src/Navis/Runner/StatusPaths.antt =====
-- Which statuses a workflow comes to.
use fluvius_py.Common.{ℕ, ◌≡◌, refl, subst, Bool, true, Option, none, some, [], ◌∷◌, arith, is_some}
use fluvius_py.Navis.Status.{WorkflowStatus, workflow_in, workflow_status_eq}
use fluvius_py.Navis.Data.{WorkflowData, Mutation, StateUpdate, set_workflow}
use fluvius_py.Navis.Runner.Script.{Call, Engine}
use fluvius_py.Navis.Runner.State.{Runner}
use fluvius_py.Navis.Runner.Actions.{invoke}
use fluvius_py.Navis.Runner.Moves.{
  Move, Change, StateWrite, starts, cancels_new, cancels_active, pauses, blanks, progresses,
  state_written, changes, Reach, here, next,
}
use fluvius_py.Navis.Runner.Traces.Bodies.{invoke-Reach}

-- From NEW to ACTIVE, from NEW or ACTIVE to CANCELLED or PAUSED, and no further.
abbrev pub follows : WorkflowStatus → WorkflowStatus → Bool
follows WorkflowStatus.new next_status =
    workflow_in
      (WorkflowStatus.new ∷ WorkflowStatus.active ∷ WorkflowStatus.cancelled ∷ WorkflowStatus.paused
        ∷ [])
      next_status
follows WorkflowStatus.active next_status =
    workflow_in (WorkflowStatus.active ∷ WorkflowStatus.cancelled ∷ WorkflowStatus.paused ∷ [])
      next_status
follows old next_status = workflow_status_eq old next_status

abbrev pub MayBecome : Option WorkflowStatus → Option WorkflowStatus → Type 0
MayBecome none o = o ≡ none
MayBecome (some old) none = ⊥
MayBecome (some old) (some later) = follows old later ≡ true

-- A paused workflow knows the status that it was paused at.
abbrev pub RemembersPause : WorkflowData → Type 0
RemembersPause w = w.status ≡ some WorkflowStatus.paused → w.paused ≡ some WorkflowStatus.active

MayBecome-refl : (o : Option WorkflowStatus) → MayBecome o o
MayBecome-refl none = refl
MayBecome-refl (some s) = ground arith

from_new :
    (old : Option WorkflowStatus)
    → MayBecome old (some WorkflowStatus.new)
    → MayBecome old (some WorkflowStatus.active) × MayBecome old (some WorkflowStatus.cancelled)
from_new none h = absurd (cc h)
from_new (some old) h = ground arith

from_active :
    (old : Option WorkflowStatus)
    → MayBecome old (some WorkflowStatus.active)
    → MayBecome old (some WorkflowStatus.cancelled) × MayBecome old (some WorkflowStatus.paused)
from_active none h = absurd (cc h)
from_active (some old) h = ground arith

-- each write of `_set_state`, after any earlier ones
StateWrite-MayBecome :
    (old : Option WorkflowStatus) (w : WorkflowData) (u : StateUpdate)
    → StateWrite w u
    → RemembersPause w
    → MayBecome old w.status
    → MayBecome old (set_workflow u w).status
unfolding set_workflow
StateWrite-MayBecome old w u (starts now e) r h = (from_new old (subst (MayBecome old) e h)).0
StateWrite-MayBecome old w u (cancels_new e) r h = (from_new old (subst (MayBecome old) e h)).1
StateWrite-MayBecome old w u (cancels_active e) r h =
    (from_active old (subst (MayBecome old) e h)).0
StateWrite-MayBecome old w u (pauses e) r h = (from_active old (subst (MayBecome old) e h)).1
StateWrite-MayBecome old w u (blanks e f) r h = absurd (cc (r e))
StateWrite-MayBecome old w u (progresses q) r h = h

pub StateWrite-RemembersPause :
    (w : WorkflowData) (u : StateUpdate)
    → StateWrite w u
    → RemembersPause w
    → RemembersPause (set_workflow u w)
unfolding set_workflow
StateWrite-RemembersPause w u (starts now e) r = λ p. cc
StateWrite-RemembersPause w u (cancels_new e) r = λ p. cc
StateWrite-RemembersPause w u (cancels_active e) r = λ p. cc
StateWrite-RemembersPause w u (pauses e) r = λ p. refl
StateWrite-RemembersPause w u (blanks e f) r = λ p. cc
StateWrite-RemembersPause w u (progresses q) r = r

abbrev pub StatusKept : Option WorkflowStatus → Runner → Type 0
StatusKept old s = MayBecome old s.workflow.status × RemembersPause s.workflow

module _ {E : Engine} (old : Option WorkflowStatus) where
  Change-StatusKept :
      {s t : Runner} {m : Mutation} → Change E s m t → StatusKept old s → StatusKept old t
  Change-StatusKept {s} (state_written u w) (h, r) =
      (StateWrite-MayBecome old s.workflow u w r h, StateWrite-RemembersPause s.workflow u w r)
  Change-StatusKept _ h = h

  pub Move-StatusKept : {s t : Runner} → Move E s t → StatusKept old s → StatusKept old t
  Move-StatusKept (changes m tx a e c) h = Change-StatusKept c h
  Move-StatusKept _ h = h

  Reach-StatusKept : {s t : Runner} → Reach E s t → StatusKept old s → StatusKept old t
  Reach-StatusKept here h = h
  Reach-StatusKept (next r m) h = Move-StatusKept m (Reach-StatusKept r h)

-- In a transaction, and if the workflow remembers that it was active in case it is paused, any action
-- that a proxy offers, with any hooks, takes the status of a workflow from NEW at most to
-- ACTIVE, CANCELLED or PAUSED, from ACTIVE at most to CANCELLED or PAUSED, and from no other status
-- to another one, and a paused workflow goes on remembering that it was active.
pub invoke-MayBecome :
    (E : Engine) (depth : ℕ) (c : Call) (s : Runner)
    → is_some s.transaction_id ≡ true
    → RemembersPause s.workflow
    → MayBecome s.workflow.status (invoke E depth c s).1.workflow.status
      × RemembersPause (invoke E depth c s).1.workflow
invoke-MayBecome E depth c s open_tx r =
    Reach-StatusKept s.workflow.status (invoke-Reach E depth c s open_tx).0
      (MayBecome-refl s.workflow.status, r)
