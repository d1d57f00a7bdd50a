-- ===== src/Navis/Definition/Defs.antt =====
-- Defining a class of steps, and collecting the parts of a workflow into the class of its runners.
use fluvius_py.Common.{
  ℕ, String, Bool, true, false, not, ◌&&◌, ◌||◌, Option, none, some, List, [], ◌∷◌, ◌==◌, leb,
  str_eq, any, is_some, if◌then◌else◌,
}
use Prim.Native.Char.{code}
use fluvius_py.Common.Dict.{Dict, get, put}
use fluvius_py.Exec.{Failure, Result, ok, raised, Exec, pure, ◌>>◌}
use fluvius_py.Navis.Runner.Script.{Transition, StepClass, Stage}
use fluvius_py.Navis.Runner.Primitives.{begin_state, finish_state}
use fluvius_py.Navis.Router.Defs.{Table, Connected, connect_events}

-- `RX_STATE`: a capital, then capitals, digits and `_`, and at the end perhaps one newline. Python's
-- `\d` also takes the decimal digits of other scripts, which `other_digit` tells by their numbers.
module _ (other_digit : ℕ → Bool) where
  abbrev pub is_capital : ℕ → Bool
  is_capital n = leb 65 n && leb n 90

  abbrev pub is_state_char : ℕ → Bool
  is_state_char n =
      is_capital n || (leb 48 n && leb n 57) || n == 95 || (leb 128 n && other_digit n)

  abbrev pub is_empty_text : String → Bool
  is_empty_text String.[] = true
  is_empty_text (String.◌∷◌ c s) = false

  abbrev pub matches_rest : String → Bool
  matches_rest String.[] = true
  matches_rest (String.◌∷◌ c s) =
      (code c == 10 && is_empty_text s) || (is_state_char (code c) && matches_rest s)

  abbrev pub matches_state : String → Bool
  matches_state String.[] = false
  matches_state (String.◌∷◌ c s) = is_capital (code c) && matches_rest s

  unfoldable pub validate_step_states : List String → Result (List String)
  validate_step_states [] = ok []
  validate_step_states (s ∷ states) =
      if matches_state s
      then elim (validate_step_states states) [ raised f ↦ raised f | ok found ↦ ok (s ∷ found) ]
      else raised (Failure.bad_request "P00.401")

-- What `class A(B, name=.., stage=.., states=.., multiple=..)` gives to `__init_subclass__`: the
-- arguments, what `B` has, and the methods marked `@transition` and `@connect`, in the order of `dir`.
-- A stage is named by its object.
pub record ClassStatement : Type 0 where
  pub class_name : String
  pub doc : Option String
  pub name : Option String
  pub stage : Option String
  pub states : List String
  pub multiple : Bool
  pub base_stage : Option String
  pub base_states : List String
  pub base_multiple : Bool
  pub transitions : List (String × Transition)
  pub methods : List (Option Connected)

-- a subclass of `Step`, before its workflow gives its stage a key
pub record StepType : Type 0 where
  pub title : String
  pub doc : Option String
  pub stage : String
  pub multi : Bool
  pub states : List String
  pub transitions : Dict Transition
  pub methods : List (Option Connected)

-- the loop over the methods marked `@transition`
unfoldable pub collect_transitions :
    List String → List (String × Transition) → Dict Transition → Result (Dict Transition)
collect_transitions states [] found = ok found
collect_transitions states ((to_state, t) ∷ rest) found =
    let collected = collect_transitions states rest (put to_state t found) in
    if not (any (str_eq to_state) states)
    then raised (Failure.configuration_error "P00.031")
    else if is_some (get to_state found)
    then raised (Failure.configuration_error "P00.032")
    else collected

-- `name or cls.__name__`
abbrev pub title_of : Option String → String → String
title_of none class_name = class_name
title_of (some name) class_name = if is_empty_text (λ n. false) name then class_name else name

-- `states or cls.__states__`
abbrev pub given_states : List String → List String → List String
given_states [] inherited = inherited
given_states (s ∷ states) inherited = s ∷ states

abbrev pub given_stage : Option String → Option String → Option String
given_stage none inherited = inherited
given_stage (some stage) inherited = some stage

-- the class, with its states and stage, once the transitions are collected
unfoldable pub class_with :
    ClassStatement → List String → String → Result (Dict Transition) → Result StepType
class_with c states stage (raised f) = raised f
class_with c states stage (ok found) = ok (record {
  title = title_of c.name c.class_name;
  doc = c.doc;
  stage = stage;
  multi = c.multiple || c.base_multiple;
  states = states;
  transitions = found;
  methods = c.methods;
})

-- the rest of `Step.__init_subclass__`, once the states are validated
unfoldable pub class_from : ClassStatement → Option String → Result (List String) → Result StepType
class_from c stage (raised f) = raised f
class_from c none (ok found) = raised Failure.assertion_error
class_from c (some stage) (ok found) =
    let states = begin_state ∷ finish_state ∷ found in
    class_with c states stage (collect_transitions states c.transitions [])

-- `Step.__init_subclass__`
unfoldable pub define_class : (ℕ → Bool) → ClassStatement → Result StepType
define_class other_digit c =
    class_from c (given_stage c.stage c.base_stage)
      (validate_step_states other_digit (given_states c.states c.base_states))

-- an attribute of a workflow class: a stage and a role are named by their objects
pub data Element : Type 0 where
  stage_object : String → Stage → Element
  role_object : String → Element
  step_type : StepType → Element
  other : Element

-- What `WorkflowRunner.__init_subclass__` collects, the keys it writes into the stages, and the
-- router's table.
pub record Building : Type 0 where
  pub steps : Dict StepClass
  pub stages : Dict Stage
  pub roles : Dict String
  pub stage_keys : Dict String
  pub table : Table

abbrev pub Build : Type 0
Build = Exec Building Unit

unfoldable pub define_stage : String → String → Stage → Build
define_stage key object stage b =
    if is_some (get object b.stage_keys)
    then (raised (Failure.configuration_error "P00.013"), b)
    else if is_some (get key b.stages)
    then (raised (Failure.configuration_error "P00.014"), b)
    else (
      ok tt,
      record b { stage_keys = put object key b.stage_keys; stages = put key stage b.stages },
    )

unfoldable pub define_role : String → String → Build
define_role key object b =
    if is_some (get key b.roles)
    then (raised (Failure.configuration_error "P00.016"), b)
    else (ok tt, record b { roles = put key object b.roles })

abbrev pub step_class_of : StepType → String → StepClass
step_class_of t stage_key = record {
  title = t.title;
  doc = t.doc;
  stage_key = stage_key;
  multi = t.multi;
  states = t.states;
  transitions = t.transitions;
}

-- The message of P00.012 reads an attribute that the class of runners does not have.
unfoldable pub define_step_at : String → String → StepType → Option String → Build
define_step_at wfdef_key key t none b = (raised (Failure.attribute_error "__key__"), b)
define_step_at wfdef_key key t (some stage_key) b =
    let (result, table) = connect_events wfdef_key (some key) t.methods b.table in
    if is_some (get key b.steps)
    then (raised (Failure.configuration_error "P00.011"), b)
    else if is_some (get stage_key b.stages)
    then (result, record b { steps = put key (step_class_of t stage_key) b.steps; table = table })
    else (raised (Failure.attribute_error "__key__"), b)

unfoldable pub define_step : String → String → StepType → Build
define_step wfdef_key key t b = define_step_at wfdef_key key t (get t.stage b.stage_keys) b

unfoldable pub define_part : String → Element → Build
define_part key (Element.stage_object object stage) = define_stage key object stage
define_part key (Element.role_object object) = define_role key object
define_part key _ = pure tt

unfoldable pub define_parts : List (String × Element) → Build
define_parts [] = pure tt
define_parts ((key, e) ∷ attrs) = do define_part key e; define_parts attrs

unfoldable pub define_if_step : String → String → Element → Build
define_if_step wfdef_key key (Element.step_type t) = define_step wfdef_key key t
define_if_step wfdef_key key _ = pure tt

unfoldable pub define_steps : String → List (String × Element) → Build
define_steps wfdef_key [] = pure tt
define_steps wfdef_key ((key, e) ∷ attrs) = do
  define_if_step wfdef_key key e
  define_steps wfdef_key attrs

unfoldable pub connect_workflow : String → List (Option Connected) → Build
connect_workflow wfdef_key methods b =
    let (result, table) = connect_events wfdef_key none methods b.table in
    (result, record b { table = table })

-- `WorkflowRunner.__init_subclass__`: the stages and the roles, then the steps, then the handlers
unfoldable pub define_engine : String → List (String × Element) → List (Option Connected) → Build
define_engine wfdef_key attrs methods = do
  define_parts attrs
  define_steps wfdef_key attrs
  connect_workflow wfdef_key methods
