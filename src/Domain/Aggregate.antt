-- ===== src/Domain/Aggregate.antt =====
-- The aggregate: the session of one command, its actions, and the records that it makes.
use fluvius_py.Common.{
  String, Bool, true, false, not, ◌&&◌, ◌||◌, Option, none, some, List, [], ◌∷◌, ◌++◌, str_eq, any,
  is_some, if◌then◌else◌,
}
use fluvius_py.Common.Dict.{get}
use fluvius_py.Exec.{Failure, Result, ok, raised, pure, raise_if, lift, gets, modify, ◌>>=◌, ◌>>◌}
use fluvius_py.Domain.Entities.{
  Value, CommandBundle, AggregateRoot, ResponseRecord, ActionCall, CommandMeta,
}
use fluvius_py.Domain.Session.{Domain, Context, Run}

abbrev pub aggroot_of : CommandBundle → AggregateRoot
aggroot_of cmd = record {
  resource = cmd.resource;
  identifier = cmd.identifier;
  domain_sid = cmd.domain_sid;
  domain_iid = cmd.domain_iid;
}

-- `if_match`: nothing is matched for a request that has a source.
unfoldable pub if_match : Domain → Context → Result (Option String)
if_match D ctx =
    if not (str_eq ctx.source "") || not D.if_match_verify then ok none else elim ctx.if_match [
      | none ↦ raised (Failure.bad_request "D00.315")
      | some value ↦ ok (some value)
    ]

-- An empty header is not compared.
abbrev pub unmatched : Option String → String → Bool
unmatched none etag = false
unmatched (some value) etag = not (str_eq value "") && not (str_eq etag value)

unfoldable pub fetch_command_rootobj :
    Domain → Context → CommandMeta → AggregateRoot → Run (Option String)
fetch_command_rootobj D ctx meta aggroot =
    if meta.resource_init
    then pure none
    else (lift (if_match D ctx) >>= λ value. lift (D.fetch aggroot) >>= λ etag.
        raise_if (unmatched value etag) (Failure.precondition_failed "D00.201") >> pure (some etag))

-- the head of `command_aggregate`, up to its `yield`
unfoldable pub enter_aggregate : Domain → Context → CommandMeta → CommandBundle → Run Unit
enter_aggregate D ctx meta cmd = gets (λ s. is_some s.active) >>= λ overlapping.
    raise_if overlapping (Failure.internal_error "D00.110")
    >> modify (λ s. record s { agg_queue = []; active = some cmd })
    >> fetch_command_rootobj D ctx meta (aggroot_of cmd)
    >> pure tt

abbrev pub is_empty {ℓ} : {A : Type ℓ} → List A → Bool
is_empty [] = true
is_empty (x ∷ xs) = false

-- what follows its `yield`, when nothing was raised there
unfoldable pub leave_aggregate : Run Unit
leave_aggregate = gets (λ s. is_empty s.agg_queue) >>= λ consumed.
    raise_if (not consumed) (Failure.internal_error "D00.102")
    >> modify (λ s. record s { active = none })

unfoldable pub create_event : Domain → String → Value → Value → Run Unit
create_event D key args result = lift (D.event_data key result) >>= λ content. modify (λ s.
    record s {
      agg_queue =
          s.agg_queue
          ++ record { event = key; args = args; content = content; src_cmd = none } ∷ [];
    })

abbrev pub action_allowed : Option (List String) → String → Bool
action_allowed none resource = true
action_allowed (some spec) resource = any (str_eq resource) spec

abbrev pub with_event : Domain → Option String → Value → Value → Run Value
with_event D none args evt_data = pure evt_data
with_event D (some key) args evt_data = create_event D key args evt_data >> pure evt_data

-- the wrapper that `action` makes of a method
unfoldable pub perform_action : Domain → AggregateRoot → ActionCall → Run Value
perform_action D aggroot call =
    raise_if (not (action_allowed call.resources aggroot.resource)) (Failure.forbidden "D00.308")
    >> lift call.body
    >>= with_event D call.evt_key call.args

-- `create_response` of the default type
unfoldable pub create_response : Domain → Value → Result ResponseRecord
create_response D result = elim (get D.default_response_type D.responses) [
  | none ↦ raised (Failure.key_error D.default_response_type)
  | some create ↦ elim (create result) [
    | ok content ↦
        ok (record { response = D.default_response_type; content = content; src_cmd = none })
    | raised e ↦ raised e
  ]
]
