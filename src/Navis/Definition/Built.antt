-- ===== src/Navis/Definition/Built.antt =====
-- What holds of a class of steps, and of the engine, that came out of the definitions.
use fluvius_py.Common.{
  ℕ, ◌≡◌, sym, ◌∙◌, ap, subst, inl, inr, String, Bool, true, Option, none, some, List, [], ◌∷◌,
  str_eq, is_some, Bool-cases,
}
use fluvius_py.Common.Dict.{Dict, get, put, get-put_eq, get-put_ne}
use fluvius_py.Exec.{Result, ok, raised, ◌>>=◌, ◌>>◌, resume_with}
use fluvius_py.Navis.Runner.Script.{StepClass, Stage, Engine}
use fluvius_py.Navis.Runner.StepStates.{HasEngineStates}
use fluvius_py.Navis.Router.Defs.{Connected}
use fluvius_py.Navis.Definition.Defs.{
  ClassStatement, StepType, define_class, Element, Building, Build, define_stage, define_role,
  step_class_of, define_step_at, define_step, define_part, define_parts, define_if_step,
  define_steps, connect_workflow, define_engine,
}
use fluvius_py.Navis.Definition.Classes.{WithinStates, IsConsistent, define_class-IsConsistent}

abbrev Good : Building → Type 0
Good b =
    (key : String) (c : StepClass)
    → get key b.steps ≡ some c
    → IsConsistent c.states c.transitions × (is_some (get c.stage_key b.stages) ≡ true)

abbrev pub IsMade : StepType → Type 0
IsMade t = (other_digit : ℕ → Bool) × (c : ClassStatement) × (define_class other_digit c ≡ ok t)

define_step_at-Good :
    (wfdef_key key : String) (t : StepType) (o : Option String) (b : Building)
    → IsConsistent t.states t.transitions
    → Good b
    → Good (define_step_at wfdef_key key t o b).1
unfolding define_step_at
define_step_at-Good wfdef_key key t none b m h = h
define_step_at-Good wfdef_key key t (some stage_key) b m h =
    elim (Bool-cases (is_some (get key b.steps))) [
      | inl taken ↦ rw taken h
      | inr free ↦ elim (Bool-cases (is_some (get stage_key b.stages))) [
        | inl known ↦
            rw (free, known)
              (λ k c p. elim (Bool-cases (str_eq key k)) [
                | inl e ↦
                    let same : step_class_of t stage_key ≡ c =
                      cc (get-put_eq key k (step_class_of t stage_key) b.steps e, p) in
                    subst
                      (λ x.
                        IsConsistent x.states x.transitions
                        × (is_some (get x.stage_key b.stages) ≡ true))
                      same (m, known)
                | inr e ↦ h k c (sym (get-put_ne key k (step_class_of t stage_key) b.steps e) ∙ p)
              ])
        | inr unknown ↦ rw (free, unknown) h
      ]
    ]

-- every class of steps among the attributes came out of a class statement
abbrev pub AllMade : List (String × Element) → Type 0
AllMade [] = Unit {0}
AllMade ((key, Element.step_type t) ∷ attrs) = IsMade t × AllMade attrs
AllMade ((key, _) ∷ attrs) = AllMade attrs

put_known :
    {A : Type 0} (key k : String) (a : A) (d : Dict A)
    → is_some (get k d) ≡ true
    → is_some (get k (put key a d)) ≡ true
put_known key k a d h = elim (Bool-cases (str_eq key k)) [
  | inl e ↦ ap is_some (get-put_eq key k a d e)
  | inr e ↦ ap is_some (get-put_ne key k a d e) ∙ h
]

define_stage-Good :
    (key object : String) (stage : Stage) (b : Building)
    → Good b
    → Good (define_stage key object stage b).1
unfolding define_stage
define_stage-Good key object stage b h = elim (Bool-cases (is_some (get object b.stage_keys))) [
  | inl named ↦ rw named h
  | inr unnamed ↦ elim (Bool-cases (is_some (get key b.stages))) [
    | inl taken ↦ rw (unnamed, taken) h
    | inr free ↦
        rw (unnamed, free)
          (λ k c p. ((h k c p).0, put_known key c.stage_key stage b.stages (h k c p).1))
  ]
]

define_role-Good : (key object : String) (b : Building) → Good b → Good (define_role key object b).1
unfolding define_role
define_role-Good key object b h = elim (Bool-cases (is_some (get key b.roles))) [
  | inl taken ↦ rw taken h
  | inr free ↦ rw free h
]

define_part-Good :
    (key : String) (e : Element) (b : Building) → Good b → Good (define_part key e b).1
unfolding define_part
define_part-Good key (Element.stage_object object stage) b h =
    define_stage-Good key object stage b h
define_part-Good key (Element.role_object object) b h = define_role-Good key object b h
define_part-Good key _ b h = h

-- a sequence keeps what both of its parts keep
then-Good :
    (m n : Build) (b : Building)
    → Good (m b).1
    → ((b' : Building) → Good b' → Good (n b').1)
    → Good ((m >> n) b).1
unfolding ◌>>=◌
then-Good m n b h k = go (m b) h
  where
    go : (r : Result Unit × Building) → Good r.1 → Good (resume_with (λ _. n) r.0 r.1).1
    go (ok a, t) h' = k t h'
    go (raised f, t) h' = h'

define_parts-Good :
    (attrs : List (String × Element)) (b : Building) → Good b → Good (define_parts attrs b).1
unfolding define_parts
define_parts-Good [] b h = h
define_parts-Good ((key, e) ∷ attrs) b h =
    then-Good (define_part key e) (define_parts attrs) b (define_part-Good key e b h)
      (define_parts-Good attrs)

define_steps-Good :
    (wfdef_key : String) (attrs : List (String × Element)) (b : Building)
    → AllMade attrs
    → Good b
    → Good (define_steps wfdef_key attrs b).1
unfolding define_steps define_if_step define_step
define_steps-Good wfdef_key [] b m h = h
define_steps-Good wfdef_key ((key, Element.step_type t) ∷ attrs) b (m, ms) h =
    then-Good (define_step wfdef_key key t) (define_steps wfdef_key attrs) b
      (define_step_at-Good wfdef_key key t (get t.stage b.stage_keys) b
        (define_class-IsConsistent m.0 m.1 t m.2) h)
      (λ b' h'. define_steps-Good wfdef_key attrs b' ms h')
define_steps-Good wfdef_key ((key, Element.stage_object object stage) ∷ attrs) b m h =
    then-Good (define_if_step wfdef_key key (Element.stage_object object stage))
      (define_steps wfdef_key attrs) b h (λ b' h'. define_steps-Good wfdef_key attrs b' m h')
define_steps-Good wfdef_key ((key, Element.role_object object) ∷ attrs) b m h =
    then-Good (define_if_step wfdef_key key (Element.role_object object))
      (define_steps wfdef_key attrs) b h (λ b' h'. define_steps-Good wfdef_key attrs b' m h')
define_steps-Good wfdef_key ((key, Element.other) ∷ attrs) b m h =
    then-Good (define_if_step wfdef_key key Element.other) (define_steps wfdef_key attrs) b h
      (λ b' h'. define_steps-Good wfdef_key attrs b' m h')

connect_workflow-Good :
    (wfdef_key : String) (methods : List (Option Connected)) (b : Building)
    → Good b
    → Good (connect_workflow wfdef_key methods b).1
unfolding connect_workflow
connect_workflow-Good wfdef_key methods b h = h

define_engine-Good :
    (wfdef_key : String) (attrs : List (String × Element)) (methods : List (Option Connected))
    (b : Building)
    → AllMade attrs
    → Good b
    → Good (define_engine wfdef_key attrs methods b).1
unfolding define_engine
define_engine-Good wfdef_key attrs methods b m h =
    then-Good (define_parts attrs)
      (define_steps wfdef_key attrs >> connect_workflow wfdef_key methods) b
      (define_parts-Good attrs b h)
      λ b1 h1.
        then-Good (define_steps wfdef_key attrs) (connect_workflow wfdef_key methods) b1
          (define_steps-Good wfdef_key attrs b1 m h1) (connect_workflow-Good wfdef_key methods)

-- From class statements alone: collecting the parts of a workflow into a class that has no steps yet
-- registers only steps that have the two states of the engine, whose transitions lead to their own
-- states, and whose stage is one of the workflow's stages. An engine with these steps is one for which
-- the steps of its runners stay in declared states.
pub define_engine-HasEngineStates :
    (wfdef_key : String) (attrs : List (String × Element)) (methods : List (Option Connected))
    (b : Building) (E : Engine)
    → AllMade attrs
    → b.steps ≡ []
    → E.steps ≡ (define_engine wfdef_key attrs methods b).1.steps
    → HasEngineStates E
      × ((key : String) (c : StepClass)
          → get key E.steps ≡ some c
          → WithinStates c.states c.transitions
            × (is_some (get c.stage_key (define_engine wfdef_key attrs methods b).1.stages) ≡ true))
unfolding get
define_engine-HasEngineStates wfdef_key attrs methods b E m empty same =
    let start : Good b = λ key c p. absurd (cc (rw empty at p)) in
    let built = define_engine-Good wfdef_key attrs methods b m start in
    let known : (key : String) (c : StepClass)
        → get key E.steps ≡ some c
        → get key (define_engine wfdef_key attrs methods b).1.steps ≡ some c =
      λ key c p. ap (get key) (sym same) ∙ p in
    (
      λ key c p. let ((x, y, z), w) = built key c (known key c p) in (x, y),
      λ key c p. let ((x, y, z), w) = built key c (known key c p) in (z, w),
    )
