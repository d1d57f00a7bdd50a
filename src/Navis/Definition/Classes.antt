-- ===== src/Navis/Definition/Classes.antt =====
-- What holds of a class of steps that came out of its definition.
use fluvius_py.Common.{
  ℕ, ◌≡◌, refl, sym, ◌∙◌, ap, subst, inl, inr, String, Bool, true, Option, none, some, List, [],
  ◌∷◌, str_eq, eq_iff, any, is_some, Bool-cases,
}
use fluvius_py.Common.Dict.{Dict, get, put, get-put_ne}
use fluvius_py.Exec.{Failure, Result, ok, raised}
use fluvius_py.Navis.Runner.Script.{Transition}
use fluvius_py.Navis.Runner.Primitives.{begin_state, finish_state}
use fluvius_py.Navis.Definition.Defs.{
  validate_step_states, ClassStatement, StepType, collect_transitions, given_states, given_stage,
  class_with, class_from, define_class,
}

-- Every transition leads to a state of the class.
abbrev pub WithinStates : List String → Dict Transition → Type 0
WithinStates states found =
    (to_state : String) → is_some (get to_state found) ≡ true → any (str_eq to_state) states ≡ true

-- A class has the two states of the engine, and its transitions lead to its states.
abbrev pub IsConsistent : List String → Dict Transition → Type 0
IsConsistent states found =
    (any (str_eq begin_state) states ≡ true)
    × (any (str_eq finish_state) states ≡ true)
    × WithinStates states found

put_within :
    (states : List String) (key : String) (t : Transition) (found : Dict Transition)
    → any (str_eq key) states ≡ true
    → WithinStates states found
    → WithinStates states (put key t found)
put_within states key t found h w to_state p = elim (Bool-cases (str_eq key to_state)) [
  | inl e ↦ subst (λ k. any (str_eq k) states ≡ true) ((eq_iff key to_state).0 e) h
  | inr e ↦ w to_state (sym (ap is_some (get-put_ne key to_state t found e)) ∙ p)
]

ok_eq : {A : Type 0} {a b : A} → ok a ≡ ok b → a ≡ b
ok_eq h = cc

collect_within :
    (states : List String) (rest : List (String × Transition)) (found r : Dict Transition)
    → collect_transitions states rest found ≡ ok r
    → WithinStates states found
    → WithinStates states r
unfolding collect_transitions
collect_within states [] found r h w = subst (WithinStates states) (ok_eq h) w
collect_within states ((key, t) ∷ rest) found r h w = elim (Bool-cases (any (str_eq key) states)) [
  | inl known ↦ elim (Bool-cases (is_some (get key found))) [
    | inl taken ↦ absurd (cc (rw (known, taken) at h))
    | inr free ↦
        let h' : collect_transitions states rest (put key t found) ≡ ok r = rw (known, free) at h in
        collect_within states rest (put key t found) r h' (put_within states key t found known w)
  ]
  | inr unknown ↦ absurd (cc (rw unknown at h))
]

class_with-IsConsistent :
    (c : ClassStatement) (found : List String) (stage : String) (t : StepType)
    (r : Result (Dict Transition))
    → collect_transitions (begin_state ∷ finish_state ∷ found) c.transitions [] ≡ r
    → class_with c (begin_state ∷ finish_state ∷ found) stage r ≡ ok t
    → IsConsistent t.states t.transitions
unfolding class_with get
class_with-IsConsistent c found stage t (raised f) e h = absurd (cc h)
class_with-IsConsistent c found stage t (ok ts) e h =
    subst (λ x. IsConsistent x.states x.transitions) (ok_eq h)
      (
        refl,
        refl,
        collect_within (begin_state ∷ finish_state ∷ found) c.transitions [] ts e
            (λ to_state p. absurd (cc p)),
      )

class_from-IsConsistent :
    (c : ClassStatement) (stage : Option String) (t : StepType) (r : Result (List String))
    → class_from c stage r ≡ ok t
    → IsConsistent t.states t.transitions
unfolding class_from
class_from-IsConsistent c stage t (raised f) h = absurd (cc h)
class_from-IsConsistent c none t (ok found) h = absurd (cc h)
class_from-IsConsistent c (some stage) t (ok found) h =
    class_with-IsConsistent c found stage t _ refl h

-- A class of steps that is defined without a raise has the two states of the engine, and each of its
-- transitions leads to a state of the class.
pub define_class-IsConsistent :
    (other_digit : ℕ → Bool) (c : ClassStatement) (t : StepType)
    → define_class other_digit c ≡ ok t
    → IsConsistent t.states t.transitions
unfolding define_class
define_class-IsConsistent other_digit c t h = class_from-IsConsistent c _ t _ h

class_with-states :
    (c : ClassStatement) (found : List String) (stage : String) (t : StepType)
    (r : Result (Dict Transition))
    → class_with c (begin_state ∷ finish_state ∷ found) stage r ≡ ok t
    → t.states ≡ begin_state ∷ finish_state ∷ found
unfolding class_with
class_with-states c found stage t (raised f) h = absurd (cc h)
class_with-states c found stage t (ok ts) h = ap (λ (x : StepType). x.states) (sym (ok_eq h))

class_from-states :
    (c : ClassStatement) (stage : Option String) (t : StepType) (r : Result (List String))
    → class_from c stage r ≡ ok t
    → (found : List String) × (t.states ≡ begin_state ∷ finish_state ∷ found)
unfolding class_from
class_from-states c stage t (raised f) h = absurd (cc h)
class_from-states c none t (ok found) h = absurd (cc h)
class_from-states c (some stage) t (ok found) h = (found, class_with-states c found stage t _ h)

given_nothing :
    (states inherited : List String) → states ≡ [] → given_states states inherited ≡ inherited
given_nothing [] inherited h = refl
given_nothing (s ∷ states) inherited h = absurd (cc h)

refused :
    (other_digit : ℕ → Bool) (c : ClassStatement) (stage : Option String) (found : List String)
    → class_from c stage (validate_step_states other_digit (begin_state ∷ found))
      ≡ raised (Failure.bad_request "P00.401")
unfolding class_from validate_step_states
refused other_digit c none found = refl
refused other_digit c (some stage) found = refl

-- A subclass that gives no states of its own, of a class of steps that was defined, cannot be
-- defined: among the states it inherits is `_CREATED`, which is not spelled like a state.
pub inherited_states-Raises :
    (other_digit : ℕ → Bool) (base sub : ClassStatement) (t : StepType)
    → define_class other_digit base ≡ ok t
    → sub.states ≡ []
    → sub.base_states ≡ t.states
    → define_class other_digit sub ≡ raised (Failure.bad_request "P00.401")
unfolding define_class
inherited_states-Raises other_digit base sub t made none_given inherited =
    let (found, e) = class_from-states base _ t _ made in
    ap
      (λ states.
        class_from sub (given_stage sub.stage sub.base_stage)
          (validate_step_states other_digit states))
      (given_nothing sub.states sub.base_states none_given ∙ inherited ∙ e)
    ∙ refused other_digit sub (given_stage sub.stage sub.base_stage) (finish_state ∷ found)
