-- ===== src/Navis/Runner/Traces/Keeps.antt =====
-- A step that is there stays there, with its key.
use fluvius_py.Common.{◌≡◌, ◌∙◌, String, some, inl, inr, eq_iff, str_eq, Bool-cases}
use fluvius_py.Common.Dict.{get, get-put_eq, get-put_ne}
use fluvius_py.Navis.Data.{Uuid, WorkflowStep, Mutation, set_step}
use fluvius_py.Navis.Runner.Script.{Engine}
use fluvius_py.Navis.Runner.State.{Runner}
use fluvius_py.Navis.Runner.Moves.{
  Move, Change, Reach, here, next, changes, step_written, step_recovered, step_added,
  recover_update,
}

abbrev pub HasStep : Uuid → String → Runner → Type 0
HasStep id key s = (d : WorkflowStep) × (get id s.steps ≡ some d) × (d.step_key ≡ key)

module _ {E : Engine} (id : Uuid) (key : String) where
  Change-HasStep :
      {s t : Runner} {m : Mutation} → Change E s m t → HasStep id key s → HasStep id key t
  unfolding set_step
  Change-HasStep {s} (step_written id' c d u found class w) (d0, e, k) =
      elim (Bool-cases (str_eq id' id)) [
        | inl same ↦ (set_step u d, get-put_eq _ _ _ _ same, cc ((eq_iff id' id).0 same))
        | inr other ↦ (d0, get-put_ne _ _ _ _ other ∙ e, k)
      ]
  Change-HasStep {s} (step_recovered id' d found broken) (d0, e, k) =
      elim (Bool-cases (str_eq id' id)) [
        | inl same ↦
            (set_step recover_update d, get-put_eq _ _ _ _ same, cc ((eq_iff id' id).0 same))
        | inr other ↦ (d0, get-put_ne _ _ _ _ other ∙ e, k)
      ]
  Change-HasStep {s} (step_added c id' selector src k' title now class new free) (d0, e, k) =
      elim (Bool-cases (str_eq id' id)) [
        | inl same ↦ absurd (cc ((eq_iff id' id).0 same))
        | inr other ↦ (d0, get-put_ne _ _ _ _ other ∙ e, k)
      ]
  Change-HasStep _ h = h

  Move-HasStep : {s t : Runner} → Move E s t → HasStep id key s → HasStep id key t
  Move-HasStep (changes m tx a e c) h = Change-HasStep c h
  Move-HasStep _ h = h

  pub Reach-HasStep : {s t : Runner} → Reach E s t → HasStep id key s → HasStep id key t
  Reach-HasStep here h = h
  Reach-HasStep (next r m) h = Move-HasStep m (Reach-HasStep r h)
