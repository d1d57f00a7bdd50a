-- ===== src/Domain/Logged.antt =====
-- What a transaction of a domain writes: the events that are put in the queue are those logged.
use fluvius_py.Common.{◌≡◌, refl, sym, ◌∙◌, ap, List, [], ◌∷◌, ◌++◌, append-nil, append_assoc}
use fluvius_py.Exec.{Triple, Triple-bind, Triple-modify, Triple-lift, Kept}
use fluvius_py.Domain.Entities.{CommandBundle, EventRecord}
use fluvius_py.Domain.Session.{DomainSignal, LogEntry, Domain, Session, Run}
use fluvius_py.Domain.Process.{publish, add_entry, collect_event}
use fluvius_py.Domain.Frame.{Kept-publish}

-- the events and the commands of a log
abbrev pub events_of : List LogEntry → List EventRecord
events_of [] = []
events_of (LogEntry.event_log evt ∷ entries) = evt ∷ events_of entries
events_of (LogEntry.context_log id ∷ entries) = events_of entries
events_of (LogEntry.command_log cmd ∷ entries) = events_of entries
events_of (LogEntry.activity_log a ∷ entries) = events_of entries

abbrev pub commands_of : List LogEntry → List CommandBundle
commands_of [] = []
commands_of (LogEntry.command_log cmd ∷ entries) = cmd ∷ commands_of entries
commands_of (LogEntry.event_log evt ∷ entries) = commands_of entries
commands_of (LogEntry.context_log id ∷ entries) = commands_of entries
commands_of (LogEntry.activity_log a ∷ entries) = commands_of entries

events_of-append : (xs ys : List LogEntry) → events_of (xs ++ ys) ≡ events_of xs ++ events_of ys
events_of-append [] ys = refl
events_of-append (LogEntry.event_log evt ∷ xs) ys = ap (λ es. evt ∷ es) (events_of-append xs ys)
events_of-append (LogEntry.context_log id ∷ xs) ys = events_of-append xs ys
events_of-append (LogEntry.command_log cmd ∷ xs) ys = events_of-append xs ys
events_of-append (LogEntry.activity_log a ∷ xs) ys = events_of-append xs ys

commands_of-append :
    (xs ys : List LogEntry) → commands_of (xs ++ ys) ≡ commands_of xs ++ commands_of ys
commands_of-append [] ys = refl
commands_of-append (LogEntry.command_log cmd ∷ xs) ys =
    ap (λ es. cmd ∷ es) (commands_of-append xs ys)
commands_of-append (LogEntry.context_log id ∷ xs) ys = commands_of-append xs ys
commands_of-append (LogEntry.event_log evt ∷ xs) ys = commands_of-append xs ys
commands_of-append (LogEntry.activity_log a ∷ xs) ys = commands_of-append xs ys

-- What no step of a transaction writes.
abbrev pub Outside : Session → Session → Type 0
Outside s t = (t.handled ≡ s.handled) × (t.dispatched ≡ s.dispatched) × (t.committed ≡ s.committed)

-- What holds in a transaction that began at `s` and has logged the commands `cs`.
abbrev pub Inside : Session → List CommandBundle → Session → Type 0
Inside s cs t =
    Outside s t × (t.evt_queue ≡ s.evt_queue ++ events_of t.log) × (commands_of t.log ≡ cs)

module _ (D : Domain) (s : Session) where
  abbrev pub Step : {A : Type 0} → List CommandBundle → Run A → Type 0
  Step cs m = Kept (Inside s cs) (Outside s) m

  pub fail : {cs : List CommandBundle} (t : Session) → Inside s cs t → Outside s t
  fail t h = h.0

  pub Step-publish : {cs : List CommandBundle} (signal : DomainSignal) → Step cs (publish D signal)
  Step-publish signal = Kept-publish D fail signal (λ t signals h. h)

  -- an entry that is neither an event nor a command
  pub Step-add :
      {cs : List CommandBundle} (entry : LogEntry)
      → events_of (entry ∷ []) ≡ []
      → commands_of (entry ∷ []) ≡ []
      → Step cs (add_entry D entry)
  unfolding add_entry
  Step-add entry e c = Triple-bind (Triple-lift fail (D.add_entry entry)) λ _.
      Triple-modify _ (λ t (o, q, k). (
        o,
        q
            ∙ ap (λ es. s.evt_queue ++ es)
                (sym (
                  events_of-append t.log (entry ∷ [])
                  ∙ ap (λ es. events_of t.log ++ es) e
                  ∙ append-nil (events_of t.log))),
        commands_of-append t.log (entry ∷ [])
            ∙ ap (λ es. commands_of t.log ++ es) c
            ∙ append-nil (commands_of t.log)
            ∙ k,
      ))

  pub add-command :
      {cs : List CommandBundle} (cmd : CommandBundle)
      → Triple
          (Inside s cs)
          (add_entry D (LogEntry.command_log cmd))
          (λ _. Inside s (cs ++ cmd ∷ []))
          (Outside s)
  unfolding add_entry
  add-command cmd = Triple-bind (Triple-lift fail (D.add_entry (LogEntry.command_log cmd))) λ _.
      Triple-modify _ (λ t (o, q, k). (
        o,
        q
            ∙ ap (λ es. s.evt_queue ++ es)
                (sym (
                  events_of-append t.log (LogEntry.command_log cmd ∷ [])
                  ∙ append-nil (events_of t.log))),
        commands_of-append t.log (LogEntry.command_log cmd ∷ []) ∙ ap (λ es. es ++ cmd ∷ []) k,
      ))

  pub Step-collect : {cs : List CommandBundle} (evt : EventRecord) → Step cs (collect_event D evt)
  unfolding collect_event add_entry
  Step-collect {cs} evt =
      Triple-bind {Q = λ _. Ahead}
        (Triple-modify _ (λ t (o, q, k). (o, ap (λ es. es ++ evt ∷ []) q, k)))
        λ _. Triple-bind (Triple-lift (λ t h. h.0) (D.add_entry (LogEntry.event_log evt))) λ _.
          Triple-modify _ (λ t (o, q, k). (
            o,
            q
                ∙ append_assoc s.evt_queue (events_of t.log) (evt ∷ [])
                ∙ ap (λ es. s.evt_queue ++ es)
                    (sym (events_of-append t.log (LogEntry.event_log evt ∷ []))),
            commands_of-append t.log (LogEntry.event_log evt ∷ [])
                ∙ append-nil (commands_of t.log)
                ∙ k,
          ))
    where
      -- the queue is one event ahead of the log
      Ahead : Session → Type 0
      Ahead t =
          Outside s t
          × (t.evt_queue ≡ (s.evt_queue ++ events_of t.log) ++ evt ∷ [])
          × (commands_of t.log ≡ cs)
