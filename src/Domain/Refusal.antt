-- ===== src/Domain/Refusal.antt =====
-- What a domain does while its aggregate has a command.
use fluvius_py.Common.{
  ◌≡◌, refl, sym, ◌∙◌, ap, subst, true, not, Option, some, is_some, List, [], ◌∷◌,
}
use fluvius_py.Common.Dict.{Dict}
use fluvius_py.Exec.{
  Failure, Result, ok, raised, After, pure, raise_if, ◌>>=◌, ◌>>◌, Triple, Triple-bind,
  Triple-modify, Triple-lift, Triple-never, Kept,
}
use fluvius_py.Domain.Entities.{CommandBundle, CommandMeta}
use fluvius_py.Domain.Session.{DomainSignal, LogEntry, Domain, Context, Session, Run}
use fluvius_py.Domain.Aggregate.{enter_aggregate}
use fluvius_py.Domain.Process.{
  publish, add_entry, invoke_processors, lookup_command, process_command_internal,
}
use fluvius_py.Domain.Frame.{Kept-pure, Kept-publish}
use fluvius_py.Domain.Entities.{Value}
use fluvius_py.Domain.Logged.{Outside}
use fluvius_py.Domain.Commands.{
  stamp, authorize_command, check_policy, process_all, transaction_body, commit_or_rollback,
  transaction, after_commit, process_command,
}
use fluvius_py.Domain.Overlap.{Busy}
use fluvius_py.Domain.Frame.{Kept-if}

-- The aggregate has the command and the queue that it had at `s`, and since then nothing was put in the
-- queue of events, committed, handled or dispatched.
abbrev pub Stuck : Session → Session → Type 0
Stuck s t =
    (t.active ≡ s.active) × (t.agg_queue ≡ s.agg_queue) × (t.evt_queue ≡ s.evt_queue) × Outside s t

module _ (D : Domain) (s : Session) (busy : Busy s) where
  abbrev Always : {A : Type 0} → Run A → Type 0
  Always m = Triple (Stuck s) m (λ _ _. ⊥) (Stuck s)

  after-raise :
      {A B : Type 0} {P : Session → Type 0} {m : Run A} (f : A → Run B)
      → Triple P m (λ _ _. ⊥) (Stuck s)
      → Triple P (m >>= f) (λ _ _. ⊥) (Stuck s)
  after-raise f h = Triple-bind h λ a. Triple-never (f a)

  then-raise :
      {A B : Type 0} {m : Run A} {f : A → Run B}
      → Kept (Stuck s) (Stuck s) m
      → ((a : A) → Always (f a))
      → Always (m >>= f)
  then-raise h k = Triple-bind h k

  Stuck-add : (entry : LogEntry) → Kept (Stuck s) (Stuck s) (add_entry D entry)
  unfolding add_entry
  Stuck-add entry =
      Triple-bind (Triple-lift (λ t h. h) (D.add_entry entry)) λ _. Triple-modify _ (λ t h. h)

  enter-refused :
      (ctx : Context) (meta : CommandMeta) (cmd : CommandBundle)
      → Always (enter_aggregate D ctx meta cmd)
  unfolding enter_aggregate
  enter-refused ctx meta cmd =
      Triple-bind {Q = λ overlapping t. (overlapping ≡ true) × Stuck s t}
        (record { ends = λ t h. (ap is_some h.0 ∙ busy, h) })
        λ overlapping. after-raise _ (
          after-raise _ (
            after-raise _ (record {
              ends = λ t (e, h).
                  subst
                    (λ b.
                      After (λ _ _. ⊥) (Stuck s) (raise_if b (Failure.internal_error "D00.110") t))
                    (sym e) h;
            })))

  invoke-refused :
      (ctx : Context) (cmd : CommandBundle) (meta : CommandMeta)
      → Always (invoke_processors D ctx cmd meta)
  unfolding invoke_processors
  invoke-refused ctx cmd meta = after-raise _ (after-raise _ (enter-refused ctx meta cmd))

  Stuck-publish : (signal : DomainSignal) → Kept (Stuck s) (Stuck s) (publish D signal)
  Stuck-publish signal = Kept-publish D (λ t h. h) signal (λ t signals h. h)

  internal-refused :
      (ctx : Context) (cmd : CommandBundle) → Always (process_command_internal D ctx cmd)
  unfolding process_command_internal
  internal-refused ctx cmd =
      then-raise
        (Triple-bind
          (Triple-bind (Stuck-add (LogEntry.command_log cmd))
            λ _. Stuck-publish DomainSignal.command_ready)
          λ _. Triple-lift (λ t h. h) (lookup_command D cmd.command))
        λ meta. after-raise _ (after-raise _ (after-raise _ (invoke-refused ctx cmd meta)))

  Stuck-authorize :
      (ctx : Context) (cmd : CommandBundle) → Kept (Stuck s) (Stuck s) (authorize_command D ctx cmd)
  unfolding authorize_command
  Stuck-authorize ctx cmd =
      Kept-if D (λ t h. h) (not D.command_permission) (Kept-pure D (λ t h. h) cmd)
        (Triple-bind (Triple-lift (λ t h. h) (lookup_command D cmd.command)) λ meta.
          Triple-bind (Triple-lift (λ t h. h) (check_policy D ctx cmd meta))
            λ _. Kept-pure D (λ t h. h) cmd)

  body-refused :
      (ctx : Context) (cmd : CommandBundle) (cmds : List CommandBundle)
      → Always (transaction_body D ctx (cmd ∷ cmds))
  unfolding transaction_body process_all
  body-refused ctx cmd cmds = after-raise _ (
      after-raise _ (
        then-raise (Stuck-add (LogEntry.context_log ctx.id)) λ _.
          then-raise (Stuck-authorize ctx (stamp D ctx cmd))
            λ auth_cmd. after-raise _ (internal-refused ctx auth_cmd)))

-- While the aggregate has a command, `process_command` with some commands raises whatever they are.
-- It leaves the aggregate the command and the queue that it had, puts no event in the queue of the
-- context, and commits, handles and dispatches nothing.
pub process_command-Stuck :
    (D : Domain) (ctx : Context) (cmd : CommandBundle) (cmds : List CommandBundle) (s : Session)
    → Busy s
    → ((e : Failure) × ((process_command D ctx (cmd ∷ cmds) s).0 ≡ raised e))
      × Stuck s (process_command D ctx (cmd ∷ cmds) s).1
unfolding process_command transaction ◌>>=◌
process_command-Stuck D ctx cmd cmds s busy =
    by_body (transaction_body D ctx (cmd ∷ cmds) (record s { log = [] })) (
      (body-refused D s busy ctx cmd cmds).ends (record s { log = [] })
        (refl, refl, refl, (refl, refl, refl)))
  where
    outcome : Result Unit × Session → Result (Option (Dict Value)) × Session
    outcome r =
        ((λ (_ : Session). commit_or_rollback D r) >> after_commit D >>= λ responses.
        pure (some responses))
          s

    by_body :
        (r : Result Unit × Session)
        → After (λ _ _. ⊥) (Stuck s) r
        → ((e : Failure) × ((outcome r).0 ≡ raised e)) × Stuck s (outcome r).1
    by_body (ok a, u) h = absurd h
    by_body (raised e, u) h = ((e, refl), h)
