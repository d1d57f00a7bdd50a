-- ===== src/Domain/Transactions.antt =====
-- What a transaction of a domain does, command by command.
use fluvius_py.Common.{
  ◌≡◌, refl, sym, ◌∙◌, subst, Bool, true, false, not, List, [], ◌∷◌, ◌++◌, append-nil, append_assoc,
  if◌then◌else◌,
}
use fluvius_py.Exec.{
  Failure, After, pure, lift, ◌>>=◌, ◌>>◌, Triple, Triple-bind, Triple-pure, Triple-modify,
  Triple-raise_if, Triple-lift,
}
use fluvius_py.Domain.Entities.{Uuid, CommandBundle, Particle, CommandMeta}
use fluvius_py.Domain.Handlers.{select, build_handler_map}
use fluvius_py.Domain.Session.{DomainSignal, LogEntry, Domain, Context, Session}
use fluvius_py.Domain.Aggregate.{is_empty}
use fluvius_py.Domain.Process.{
  handle_particle, invoke_processors, lookup_command, process_command_internal,
}
use fluvius_py.Domain.Commands.{
  stamp, stamped, authorize_command, check_policy, process_all, trigger_reconciliation,
  transaction_body,
}
use fluvius_py.Domain.Frame.{Kept-pure, Kept-gets, Kept-enter, Kept-leave}
use fluvius_py.Domain.Processors.{Kept-processors, Kept-consume}
use fluvius_py.Domain.Logged.{
  Outside, Inside, Step, fail, Step-publish, Step-add, add-command, Step-collect,
}

module _ (D : Domain) (s : Session) where
  module _ {cs : List CommandBundle} where
    Step-particle : (id : Uuid) (p : Particle) → Step D s cs (handle_particle D id p)
    unfolding handle_particle
    Step-particle id (Particle.event evt) =
        Triple-bind (Step-publish D s DomainSignal.event_commited) λ _. Step-collect D s _
    Step-particle id (Particle.message m) =
        Triple-bind (Triple-modify _ (λ t h. h)) λ _. Step-publish D s DomainSignal.message_received
    Step-particle id (Particle.response r) =
        Triple-bind (Triple-modify _ (λ t h. h))
          λ _. Step-publish D s DomainSignal.response_received
    Step-particle id (Particle.activity a) = Step-add D s _ refl refl
    Step-particle id (Particle.foreign kind) = record { ends = λ t h. h.0 }

    Step-invoke :
        (ctx : Context) (cmd : CommandBundle) (meta : CommandMeta)
        → Step D s cs (invoke_processors D ctx cmd meta)
    unfolding invoke_processors
    Step-invoke ctx cmd meta =
        Triple-bind
          (Triple-bind (Kept-enter D (fail D s) (λ t queue c k. k) ctx meta cmd)
            λ _. Triple-lift (fail D s) (select (build_handler_map D.cmd_processors) cmd.command))
          λ ps.
            Triple-bind
              (Triple-bind
                (Triple-bind (Kept-processors D (fail D s) (λ t queue k. k) Step-particle cmd ps)
                  λ _.
                    Triple-bind (Kept-gets D (fail D s) (λ t. t.agg_queue))
                      (Kept-consume D (fail D s) (λ t queue k. k) Step-particle cmd.id))
                λ _. Kept-leave D (fail D s) (λ t queue c k. k))
              λ _. Triple-raise_if (fail D s) (is_empty ps) (Failure.internal_error "D00.106")

    Step-reconcile : (cmds : List CommandBundle) → Step D s cs (trigger_reconciliation D cmds)
    unfolding trigger_reconciliation
    Step-reconcile [] = Kept-pure D (fail D s) tt
    Step-reconcile (cmd ∷ cmds) =
        Triple-bind
          (Triple-bind (Triple-modify _ (λ t h. h))
            λ _. Step-publish D s DomainSignal.trigger_reconciliation)
          λ _. Step-reconcile cmds

  process-logs :
      {cs : List CommandBundle} (ctx : Context) (cmd : CommandBundle)
      → Triple
          (Inside s cs)
          (process_command_internal D ctx cmd)
          (λ _. Inside s (cs ++ cmd ∷ []))
          (Outside s)
  unfolding process_command_internal
  process-logs ctx cmd =
      Triple-bind
        (Triple-bind
          (Triple-bind (add-command D s cmd) λ _. Step-publish D s DomainSignal.command_ready)
          λ _. Triple-lift (fail D s) (lookup_command D cmd.command))
        λ meta.
          Triple-bind
            (Triple-bind
              (Triple-bind (Step-invoke ctx cmd meta)
                λ _. Step-publish D s DomainSignal.trigger_replication)
              λ _. Triple-modify _ (λ t h. h))
            λ _. Step-publish D s DomainSignal.command_completed

  authorize-same :
      {cs : List CommandBundle} (ctx : Context) (cmd : CommandBundle)
      → Triple
          (Inside s cs)
          (authorize_command D ctx cmd)
          (λ c t. (c ≡ cmd) × Inside s cs t)
          (Outside s)
  unfolding authorize_command
  authorize-same {cs} ctx cmd = by_config D.command_permission
    where
      given : Triple (Inside s cs) (pure cmd) (λ c t. (c ≡ cmd) × Inside s cs t) (Outside s)
      given = Triple-pure cmd (λ t h. (refl, h))

      by_config :
          (b : Bool)
          → Triple
              (Inside s cs)
              (if not b
                then pure cmd
                else (lift (lookup_command D cmd.command) >>= λ meta.
                    lift (check_policy D ctx cmd meta) >> pure cmd))
              (λ c t. (c ≡ cmd) × Inside s cs t)
              (Outside s)
      by_config false = given
      by_config true =
          Triple-bind (Triple-lift (fail D s) (lookup_command D cmd.command))
            λ meta. Triple-bind (Triple-lift (fail D s) (check_policy D ctx cmd meta)) λ _. given

  process_all-logs :
      {cs : List CommandBundle} (ctx : Context) (cmds : List CommandBundle)
      → Triple
          (Inside s cs)
          (process_all D ctx cmds)
          (λ _. Inside s (cs ++ stamped D ctx cmds))
          (Outside s)
  unfolding process_all
  process_all-logs {cs} ctx [] = Triple-pure tt (λ t (o, q, k). (o, q, k ∙ sym (append-nil cs)))
  process_all-logs {cs} ctx (cmd ∷ cmds) = Triple-bind (authorize-same ctx (stamp D ctx cmd)) λ c.
      Triple-bind {Q = λ _. Inside s (cs ++ stamp D ctx cmd ∷ [])}
        (record {
          ends = λ t (e, h).
              subst
                (λ d.
                  After (λ _. Inside s (cs ++ stamp D ctx cmd ∷ [])) (Outside s)
                    (process_command_internal D ctx d t))
                (sym e) ((process-logs ctx (stamp D ctx cmd)).ends t h);
        })
        λ _.
          subst
            (λ ds.
              Triple (Inside s (cs ++ stamp D ctx cmd ∷ [])) (process_all D ctx cmds)
                (λ _. Inside s ds) (Outside s))
            (append_assoc cs (stamp D ctx cmd ∷ []) (stamped D ctx cmds))
            (process_all-logs {cs = cs ++ stamp D ctx cmd ∷ []} ctx cmds)

  -- The events that a transaction puts in the queue are those that it logs, and it logs each of its
  -- commands, in their order; a raise has handled, dispatched and committed nothing.
  pub transaction_body-logs :
      (ctx : Context) (cmds : List CommandBundle)
      → Triple
          (Inside s [])
          (transaction_body D ctx cmds)
          (λ _. Inside s (stamped D ctx cmds))
          (Outside s)
  unfolding transaction_body
  transaction_body-logs ctx cmds =
      Triple-bind
        (Triple-bind
          (Triple-bind (Step-add D s (LogEntry.context_log ctx.id) refl refl)
            λ _. process_all-logs ctx cmds)
          λ _. Triple-bind (Kept-gets D (fail D s) (λ t. t.cmd_queue)) Step-reconcile)
        λ _. Step-publish D s DomainSignal.transaction_committing
