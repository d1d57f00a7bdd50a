-- ===== src/Navis/Runner/Journal.antt =====
-- The order of the queued mutations.
use fluvius_py.Common.{ℕ, ◌+◌, ◌≡◌, refl, true, List, [], ◌∷◌, ◌++◌, arith, is_some}
use fluvius_py.Navis.Data.{Uuid, Mutation, MutationEnvelop}
use fluvius_py.Navis.Runner.Script.{Call, Engine}
use fluvius_py.Navis.Runner.State.{Runner}
use fluvius_py.Navis.Runner.Actions.{invoke}
use fluvius_py.Navis.Runner.Moves.{Move, Change, state_written, changes, Reach, here, next}
use fluvius_py.Navis.Runner.Traces.Bodies.{invoke-Reach}

-- From counter `n` to counter `m` the queue has one mutation of the workflow at each order, and each
-- belongs to a transaction.
abbrev pub IsJournal : Uuid → ℕ → List MutationEnvelop → ℕ → Type 0
IsJournal id n [] m = n ≡ m
IsJournal id n (e ∷ queue) m =
    (e.order ≡ n + 1)
    × (e.workflow_id ≡ id)
    × (is_some e.transaction_id ≡ true)
    × IsJournal id (n + 1) queue m

IsJournal-append :
    (id : Uuid) (n m : ℕ) (queue : List MutationEnvelop) (e : MutationEnvelop)
    → e.order ≡ m + 1
    → e.workflow_id ≡ id
    → is_some e.transaction_id ≡ true
    → IsJournal id n queue m
    → IsJournal id n (queue ++ e ∷ []) (m + 1)
IsJournal-append id n m [] e o w t h = (omega (arith, o, h), w, t, omega (arith, h))
IsJournal-append id n m (x ∷ queue) e o w t (ox, wx, tx, h) =
    (ox, wx, tx, IsJournal-append id (n + 1) m queue e o w t h)

abbrev pub Journaled : ℕ → Runner → Type 0
Journaled n s = IsJournal s.id n s.mut_queue s.counter

module _ {E : Engine} (n : ℕ) where
  -- a change leaves the queue, the counter and the id to `mutate`
  Change-Journaled : {s t : Runner} {m : Mutation} → Change E s m t → Journaled n s → Journaled n t
  Change-Journaled (state_written u w) h = h
  Change-Journaled _ h = h

  Move-Journaled : {s t : Runner} → Move E s t → Journaled n s → Journaled n t
  Move-Journaled (changes {t} m tx a e c) h =
      IsJournal-append t.id n t.counter t.mut_queue _ refl refl refl (Change-Journaled c h)
  Move-Journaled _ h = h

  pub Reach-Journaled : {s t : Runner} → Reach E s t → Journaled n s → Journaled n t
  Reach-Journaled here h = h
  Reach-Journaled (next r m) h = Move-Journaled m (Reach-Journaled r h)

-- In a transaction, an action that a proxy offers (a `Call`), with any hooks, and whether it returns or
-- raises, continues a queue of mutations whose orders are consecutive up to the counter, with no
-- gap and no order used twice. The changes of participants, one of which counts an order that it
-- does not queue, are no calls of a proxy.
pub invoke-Journaled :
    (E : Engine) (depth : ℕ) (c : Call) (s : Runner) (n : ℕ)
    → is_some s.transaction_id ≡ true
    → Journaled n s
    → Journaled n (invoke E depth c s).1
invoke-Journaled E depth c s n open_tx h = Reach-Journaled n (invoke-Reach E depth c s open_tx).0 h
