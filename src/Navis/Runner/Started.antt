-- ===== src/Navis/Runner/Started.antt =====
-- A workflow that has been started: what the moves of its runner keep.
use fluvius_py.Common.{◌≡◌, refl, ◌∙◌, subst, Option, some}
use fluvius_py.Navis.Status.{WorkflowStatus}
use fluvius_py.Navis.Data.{Time, WorkflowData, Mutation, StateUpdate, set_workflow}
use fluvius_py.Navis.Runner.Script.{Engine}
use fluvius_py.Navis.Runner.State.{Runner}
use fluvius_py.Navis.Runner.Moves.{
  Move, Change, StateWrite, starts, cancels_new, cancels_active, pauses, blanks, progresses,
  state_written, changes, Reach, here, next,
}
use fluvius_py.Navis.Runner.StatusPaths.{MayBecome, StatusKept, Move-StatusKept}

abbrev pub active : Option WorkflowStatus
active = some WorkflowStatus.active

-- The workflow has been started at this time, and may have been cancelled or paused since.
abbrev pub IsStarted : Time → WorkflowData → Type 0
IsStarted now w = MayBecome active w.status × (w.ts_start ≡ some now)

-- the time of the start is written at NEW only
ts_start-kept :
    (w : WorkflowData) (u : StateUpdate)
    → StateWrite w u
    → MayBecome active w.status
    → (set_workflow u w).ts_start ≡ w.ts_start
unfolding set_workflow
ts_start-kept w u (starts now e) h = absurd (cc (subst (MayBecome active) e h))
ts_start-kept w u (cancels_new e) h = refl
ts_start-kept w u (cancels_active e) h = refl
ts_start-kept w u (pauses e) h = refl
ts_start-kept w u (blanks e f) h = refl
ts_start-kept w u (progresses q) h = refl

abbrev pub Started : Time → Runner → Type 0
Started now t = StatusKept active t × (t.workflow.ts_start ≡ some now)

module _ {E : Engine} (now : Time) where
  Change-ts_start :
      {s t : Runner} {m : Mutation}
      → Change E s m t
      → Started now s
      → t.workflow.ts_start ≡ some now
  Change-ts_start {s} (state_written u w) ((h, r), k) = ts_start-kept s.workflow u w h ∙ k
  Change-ts_start _ (h, k) = k

  Move-Started : {s t : Runner} → Move E s t → Started now s → Started now t
  Move-Started (changes m tx a e c) (h, k) =
      (Move-StatusKept active (changes m tx a e c) h, Change-ts_start c (h, k))
  Move-Started m (h, k) = (Move-StatusKept active m h, k)

  pub Reach-Started : {s t : Runner} → Reach E s t → Started now s → Started now t
  Reach-Started here h = h
  Reach-Started (next r m) h = Move-Started m (Reach-Started r h)
