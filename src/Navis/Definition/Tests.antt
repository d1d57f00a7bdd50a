-- ===== src/Navis/Definition/Tests.antt =====
-- The theorems on definitions at a small workflow.
use fluvius_py.Common.{ℕ, ◌≡◌, refl, String, Bool, false, true, none, some, List, [], ◌∷◌, is_some}
use fluvius_py.Common.Dict.{get}
use fluvius_py.Exec.{ok}
use fluvius_py.Navis.Runner.Script.{Transition, Script, StepClass, Stage, Engine}
use fluvius_py.Navis.Runner.StepStates.{HasEngineStates}
use fluvius_py.Navis.Definition.Defs.{
  ClassStatement, StepType, validate_step_states, collect_transitions, class_with, class_from,
  define_class, Element, Building, define_engine,
}
use fluvius_py.Navis.Definition.Classes.{WithinStates, IsConsistent, define_class-IsConsistent}
use fluvius_py.Navis.Definition.Built.{define_engine-HasEngineStates}
use fluvius_py.Navis.Examples.{example_engine}

abbrev to_reviewed : Transition
to_reviewed = record {
  allowed = [];
  unallowed = "_FINISHED" ∷ [];
  qualname = "Review.to_reviewed";
  body = λ context old. Script.finish;
}

abbrev review_statement : ClassStatement
review_statement = record {
  class_name = "Review";
  doc = none;
  name = none;
  stage = some "stage-1";
  states = "REVIEWED" ∷ "DONE_2" ∷ [];
  multiple = false;
  base_stage = none;
  base_states = [];
  base_multiple = false;
  transitions = ("REVIEWED", to_reviewed) ∷ [];
  methods = [];
}

abbrev no_digit : ℕ → Bool
no_digit n = false

abbrev review_type : StepType
review_type = record {
  title = "Review";
  doc = none;
  stage = "stage-1";
  multi = false;
  states = "_CREATED" ∷ "_FINISHED" ∷ "REVIEWED" ∷ "DONE_2" ∷ [];
  transitions = ("REVIEWED", to_reviewed) ∷ [];
  methods = [];
}

review_made : define_class no_digit review_statement ≡ ok review_type
unfolding define_class class_from class_with validate_step_states collect_transitions get
    fluvius_py.Common.Dict.put
review_made = refl

abbrev sub_statement : ClassStatement
sub_statement = record review_statement {
  class_name = "SecondReview";
  states = [];
  base_stage = some "stage-1";
  base_states = review_type.states;
}

abbrev intake : Stage
intake = record { name = "Intake"; type = "general"; order = 0; desc = none }

abbrev loan_attrs : List (String × Element)
loan_attrs =
    ("intake", Element.stage_object "stage-1" intake)
    ∷ ("review", Element.step_type review_type)
    ∷ ("title", Element.other)
    ∷ []

abbrev nothing : Building
nothing = record { steps = []; stages = []; roles = []; stage_keys = []; table = [] }

abbrev loan_engine : Engine
loan_engine = record example_engine { steps = (define_engine "loan" loan_attrs [] nothing).1.steps }

define_class-IsConsistent_example : IsConsistent review_type.states review_type.transitions
define_class-IsConsistent_example =
    define_class-IsConsistent no_digit review_statement review_type review_made

define_engine-HasEngineStates_example :
    HasEngineStates loan_engine
    × ((key : String) (c : StepClass)
        → get key loan_engine.steps ≡ some c
        → WithinStates c.states c.transitions
          × (is_some (get c.stage_key (define_engine "loan" loan_attrs [] nothing).1.stages)
              ≡ true))
define_engine-HasEngineStates_example =
    define_engine-HasEngineStates "loan" loan_attrs [] nothing loan_engine
      ((no_digit, review_statement, review_made), tt) refl refl
