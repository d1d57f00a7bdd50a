-- ===== src/Domain/Settlement.antt =====
-- What `process_command` leaves: the log that it commits and the events that it hands on.
use fluvius_py.Common.{
  ◌≡◌, refl, sym, ◌∙◌, ap, some, List, [], ◌∷◌, ◌++◌, append-nil, append_assoc, ◌⊎◌, inl, inr,
  is_some, if◌then◌else◌,
}
use fluvius_py.Common.Dict.{Dict, get, put}
use fluvius_py.Exec.{
  Failure, Result, ok, raised, resume_with, After, pure, ◌>>=◌, ◌>>◌, Triple, Triple-bind,
  Triple-modify, Triple-raise_if, Triple-lift, Kept,
}
use fluvius_py.Domain.Entities.{Value, CommandBundle, EventRecord, MessageBundle, ResponseRecord}
use fluvius_py.Domain.Session.{DomainSignal, LogEntry, Domain, Context, Session, Run}
use fluvius_py.Domain.Commands.{
  transaction_body, commit_or_rollback, transaction, stamped, process_event, handle_events,
  dispatch, dispatch_messages, collect_responses, after_commit, process_command,
}
use fluvius_py.Domain.Frame.{Kept-pure, Kept-gets, Kept-publish}
use fluvius_py.Domain.Logged.{events_of, commands_of, Outside, Inside}
use fluvius_py.Domain.Transactions.{transaction_body-logs}

-- The log grew by entries with the commands `cs`, and the events handled are a first part of those
-- that were queued and those logged.
abbrev pub Committed : Session → List CommandBundle → Session → Type 0
Committed s cs t =
    (entries : List LogEntry) × (t.committed ≡ s.committed ++ entries)
    × (commands_of entries ≡ cs)
    × (rest : List EventRecord) × (t.handled ++ rest
        ≡ s.handled ++ s.evt_queue ++ events_of entries)

-- The same, where all these events were handled.
abbrev pub Handled : Session → List CommandBundle → Session → Type 0
Handled s cs t =
    (entries : List LogEntry) × (t.committed ≡ s.committed ++ entries)
    × (commands_of entries ≡ cs)
    × (t.handled ≡ s.handled ++ s.evt_queue ++ events_of entries)
    × (t.evt_queue ≡ [])

abbrev pub Settled : {A : Type 0} → Session → List CommandBundle → Result A × Session → Type 0
Settled s cs (ok a, t) = Handled s cs t
Settled s cs (raised e, t) = Outside s t ⊎ Committed s cs t

module _ (D : Domain) (handler : EventRecord → Result Unit) (present : D.evthandler ≡ some handler)
    (s : Session) (cs : List CommandBundle) where
  -- the events that still have to be handled are `evts`
  Left : List EventRecord → Session → Type 0
  Left evts t =
      (entries : List LogEntry) × (t.committed ≡ s.committed ++ entries)
      × (commands_of entries ≡ cs)
      × (t.handled ++ evts ≡ s.handled ++ s.evt_queue ++ events_of entries)
      × (t.evt_queue ≡ evts)

  lost : (evts : List EventRecord) (t : Session) → Left evts t → Committed s cs t
  unfolding Left
  lost evts t (entries, c, k, h, q) = (entries, c, k, evts, h)

  handle_events-all :
      (evts : List EventRecord)
      → Triple (Left evts) (handle_events D evts) (λ _. Left []) (Committed s cs)
  unfolding handle_events Left
  handle_events-all [] = Kept-pure D (lost []) tt
  handle_events-all (evt ∷ evts) =
      Triple-bind
        (Triple-bind {Q = λ _. Popped}
          (Triple-bind {Q = λ _. Popped}
            (Triple-modify _ (λ t (entries, c, k, h, q). (entries, c, k, h, refl)))
            λ _.
              Triple-lift (λ t (entries, c, k, h, q). (entries, c, k, evt ∷ evts, h))
                (process_event D evt))
          λ _. Triple-modify _ λ t (entries, c, k, h, q). (
            entries,
            c,
            k,
            ap (λ o. (if is_some o then t.handled ++ evt ∷ [] else t.handled) ++ evts) present
                ∙ append_assoc t.handled (evt ∷ []) evts
                ∙ h,
            q,
          ))
        λ _. handle_events-all evts
    where
      Popped : Session → Type 0
      Popped t =
          (entries : List LogEntry) × (t.committed ≡ s.committed ++ entries)
          × (commands_of entries ≡ cs)
          × (t.handled ++ evt ∷ evts ≡ s.handled ++ s.evt_queue ++ events_of entries)
          × (t.evt_queue ≡ evts)

  Done : {A : Type 0} → Run A → Type 0
  Done m = Kept (Left []) (Committed s cs) m

  dispatch_messages-Done : (ms : List MessageBundle) → Done (dispatch_messages D ms)
  unfolding dispatch_messages Done Left
  dispatch_messages-Done [] = Kept-pure D (lost []) tt
  dispatch_messages-Done (m ∷ ms) =
      Triple-bind
        (Triple-bind
          (Triple-bind (Triple-modify _ (λ t h. h)) λ _. Triple-lift (lost []) (dispatch D m))
          λ _. Triple-modify _ (λ t h. h))
        λ _. dispatch_messages-Done ms

  collect_responses-Done :
      (rs : List ResponseRecord) (found : Dict Value) → Done (collect_responses D rs found)
  unfolding collect_responses Done Left
  collect_responses-Done [] found = Kept-pure D (lost []) found
  collect_responses-Done (r ∷ rs) found =
      Triple-bind
        (Triple-bind (Triple-modify _ (λ t h. h)) λ _.
          Triple-raise_if (lost []) (is_some (get r.response found))
            (Failure.internal_error "D00.109"))
        λ _. collect_responses-Done rs (put r.response r.content found)

  after_commit-Done :
      Triple (λ t. Left t.evt_queue t) (after_commit D) (λ _. Left []) (Committed s cs)
  unfolding after_commit Done Left
  after_commit-Done =
      Triple-bind
        (Triple-bind
          (Triple-bind
            (Kept-publish D (λ t. lost t.evt_queue t) DomainSignal.transaction_committed
              (λ t signals h. h))
            λ _. Triple-bind {Q = Left} (record { ends = λ t h. h }) handle_events-all)
          λ _. Triple-bind (Kept-gets D (lost []) (λ t. t.msg_queue)) dispatch_messages-Done)
        λ _.
          Triple-bind (Kept-gets D (lost []) (λ t. t.rsp_queue))
            (λ rs. collect_responses-Done rs [])

  after_commit-settles :
      (t : Session)
      → Left t.evt_queue t
      → Settled s cs (((after_commit D) >>= λ responses. pure (some responses)) t)
  unfolding Left ◌>>=◌
  after_commit-settles t h = by_result (after_commit D t) (after_commit-Done.ends t h)
    where
      by_result :
          (r : Result (Dict Value) × Session)
          → After (λ _. Left []) (Committed s cs) r
          → Settled s cs (resume_with (λ responses. pure (some responses)) r.0 r.1)
      by_result (ok a, u) (entries, c, k, q, e) = (entries, c, k, sym (append-nil u.handled) ∙ q, e)
      by_result (raised e, u) q = inr q

-- A call of `process_command` with some commands, where the domain has an event handler. If it
-- returns, it has committed a log of exactly these commands in their order, each with the
-- context, namespace and revision of the domain, and the handler has had the events that were
-- queued before and then those of this log, each once and in order, and none are left in the queue.
-- If it raises, either nothing was committed, handled or dispatched, or such a log was
-- committed and the handler has had a first part of these events.
pub process_command-settles :
    (D : Domain) (handler : EventRecord → Result Unit) (ctx : Context) (cmd : CommandBundle)
    (cmds : List CommandBundle) (s : Session)
    → D.evthandler ≡ some handler
    → Settled s (stamped D ctx (cmd ∷ cmds)) (process_command D ctx (cmd ∷ cmds) s)
unfolding process_command transaction ◌>>=◌ Left
process_command-settles D handler ctx cmd cmds s present =
    by_body (transaction_body D ctx (cmd ∷ cmds) (record s { log = [] })) (
      (transaction_body-logs D s ctx (cmd ∷ cmds)).ends (record s { log = [] })
        ((refl, refl, refl), sym (append-nil s.evt_queue), refl))
  where
    by_body :
        (r : Result Unit × Session)
        → After (λ _. Inside s (stamped D ctx (cmd ∷ cmds))) (Outside s) r
        → Settled s (stamped D ctx (cmd ∷ cmds)) (
            ((λ (_ : Session). commit_or_rollback D r) >> after_commit D >>= λ responses.
            pure (some responses))
              s)
    by_body (ok a, u) ((h, d, c), q, k) =
        after_commit-settles D handler present s (stamped D ctx (cmd ∷ cmds))
          (record u { committed = u.committed ++ u.log; log = [] })
          (
            u.log,
            ap (λ old. old ++ u.log) c,
            k,
            ap (λ old. old ++ u.evt_queue) h
                ∙ ap (λ queue. s.handled ++ queue) q
                ∙ sym (append_assoc s.handled s.evt_queue (events_of u.log)),
            refl,
          )
    by_body (raised e, u) o = inl o
