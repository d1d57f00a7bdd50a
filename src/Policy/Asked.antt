-- ===== src/Policy/Asked.antt =====
-- What the policies ask of the rows of a query, and the restriction that they give it.
use fluvius_py.Common.{
  ◌≡◌, refl, sym, ◌∙◌, ap, subst, String, Bool, true, false, not, ◌&&◌, ◌||◌, ◌⊎◌, inl, inr,
  Bool-cases, Option, none, some, List, [], ◌∷◌, str_eq, filter, if◌then◌else◌,
}
use fluvius_py.Exec.{ok, raised}
use fluvius_py.Query.Statements.{Value, QueryExpression, process}
use fluvius_py.Policy.Conditions.{Condition, Conditions, has_conditions, render}
use fluvius_py.Policy.Manager.{
  PolicyScope, same_scope, PolicyMeta, PolicyData, PolicyRequest, PolicyManager, condition_for,
  parse_metas, collect_conditions, keep_rendered, generate_restriction,
}
use fluvius_py.Policy.Meaning.{meaning, all_of, all_expressions, IsWellFormed, AreWellFormed}
use fluvius_py.Policy.Restriction.{reconcile_condition-Means}
use fluvius_py.Policy.Widest.{IsWidest, reconcile_scope-IsWidest}

-- A policy's condition for the scope, of those that its meta has.
abbrev pub condition_at : PolicyScope → PolicyMeta → Option Condition
condition_at PolicyScope.system meta = meta.for_system
condition_at PolicyScope.tenant meta = meta.for_tenant
condition_at PolicyScope.resource meta = meta.for_resource

-- A node without conditions, or a well-formed one.
abbrev pub IsRestriction : Condition → Type 0
IsRestriction (Condition.leaf field op value) = ⊥
IsRestriction (Condition.node all some_) =
    (has_conditions all || has_conditions some_ ≡ false) ⊎ IsWellFormed (Condition.node all some_)

module _ (m : PolicyManager) (req : PolicyRequest) (scope : PolicyScope) where
  abbrev pub IsRendered : Option Condition → Type 0
  IsRendered none = Unit
  IsRendered (some c) = (r : Condition) × (render (m.render_value req) c ≡ ok r) × IsRestriction r

  -- A policy without a meta, or with one that can be parsed, whose condition for the scope can be
  -- rendered if it has one.
  abbrev pub IsUsable : PolicyData → Type 0
  IsUsable p =
      (str_eq p.meta "" ≡ true)
      ⊎ ((str_eq p.meta "" ≡ false)
          × (meta : PolicyMeta) × (m.parse_meta p.meta ≡ ok meta)
          × IsRendered (condition_at scope meta))

  abbrev pub AreUsable : List PolicyData → Type 0
  AreUsable [] = Unit
  AreUsable (p ∷ ps) = (same_scope p.scope scope ≡ true → IsUsable p) × AreUsable ps

  module _ (test : String → String → Value → Bool) where
    abbrev pub condition_asks : Option Condition → Bool
    condition_asks none = true
    condition_asks (some c) = elim (render (m.render_value req) c) [
      | ok r ↦ meaning test r
      | raised e ↦ false
    ]

    -- Whether the row meets what one policy asks.
    abbrev pub policy_asks : PolicyData → Bool
    policy_asks p = if str_eq p.meta "" then true else elim (m.parse_meta p.meta) [
      | ok meta ↦ condition_asks (condition_at scope meta)
      | raised e ↦ false
    ]

    -- Whether the row meets what all policies of the scope ask.
    abbrev pub all_ask : List PolicyData → Bool
    all_ask [] = true
    all_ask (p ∷ ps) = (not (same_scope p.scope scope) || policy_asks p) && all_ask ps

  abbrev Collected : (String → String → Value → Bool) → List PolicyData → Type 0
  Collected test policies =
      (metas : List PolicyMeta) × (cs : Conditions) × (parse_metas m
          (filter (λ p. same_scope p.scope scope) policies)
        ≡ ok metas)
      × (collect_conditions m req scope metas ≡ ok cs)
      × AreWellFormed cs
      × (all_of test cs ≡ all_ask test policies)

condition_for_lem :
    (scope : PolicyScope) (meta : PolicyMeta) → condition_for scope meta ≡ condition_at scope meta
condition_for_lem PolicyScope.system meta = refl
condition_for_lem PolicyScope.tenant meta = refl
condition_for_lem PolicyScope.resource meta = refl

-- A rendered condition that is kept means what it meant, one that is dropped asks nothing.
kept-Means :
    (m : PolicyManager) (test : String → String → Value → Bool) (r : Condition) (cs : Conditions)
    → IsRestriction r
    → AreWellFormed cs
    → AreWellFormed (keep_rendered m r cs)
      × (all_of test (keep_rendered m r cs) ≡ (meaning test r && all_of test cs))
unfolding meaning IsWellFormed
kept-Means m test (Condition.leaf field op value) cs is h = absurd is
kept-Means m test (Condition.node Conditions.no_conditions Conditions.no_conditions) cs is h =
    (h, refl)
kept-Means m test (Condition.node Conditions.no_conditions (Conditions.condition d ds)) cs
      (inr well) h =
    ((well, h), refl)
kept-Means m test (Condition.node (Conditions.condition c all) some_) cs (inr well) h =
    ((well, h), refl)
kept-Means m test (Condition.node Conditions.no_conditions (Conditions.condition d ds)) cs
      (inl empty) h =
    absurd (cc empty)
kept-Means m test (Condition.node (Conditions.condition c all) some_) cs (inl empty) h =
    absurd (cc empty)

module _ (test : String → String → Value → Bool) (m : PolicyManager) (req : PolicyRequest)
    (scope : PolicyScope) where
  Collected-cons :
      (p : PolicyData) (ps : List PolicyData)
      → IsUsable m req scope p
      → Collected m req scope test ps
      → same_scope p.scope scope ≡ true
      → Collected m req scope test (p ∷ ps)
  unfolding parse_metas collect_conditions
  Collected-cons p ps (inl empty) (metas, cs, parsed, collected, well, means) same =
      (metas, cs, rw (same, empty) parsed, collected, well, rw (same, empty) means)
  Collected-cons p ps (inr (given, meta, meta_is, rendered))
        (metas, cs, parsed, collected, well, means) same =
      by_condition (condition_at scope meta) refl rendered
    where
      asked :
          (b : Bool)
          → condition_asks m req scope test (condition_at scope meta) ≡ b
          → b && all_ask m req scope test ps ≡ all_ask m req scope test (p ∷ ps)
      asked b is = rw (same, given, meta_is, is) refl

      by_condition :
          (o : Option Condition)
          → condition_at scope meta ≡ o
          → IsRendered m req scope o
          → Collected m req scope test (p ∷ ps)
      by_condition none is r = (
        meta ∷ metas,
        cs,
        rw (same, given, meta_is, parsed) refl,
        rw (collect_conditions, condition_for_lem scope meta ∙ is) collected,
        well,
        means ∙ asked true (ap (condition_asks m req scope test) is),
      )
      by_condition (some c) is (r, made, restricts) =
          let (good, same_means) = kept-Means m test r cs restricts well in
          (
            meta ∷ metas,
            keep_rendered m r cs,
            rw (same, given, meta_is, parsed) refl,
            rw (collect_conditions, condition_for_lem scope meta ∙ is, made, collected) refl,
            good,
            same_means
                ∙ ap (λ b. meaning test r && b) means
                ∙ asked (meaning test r)
                    (ap (condition_asks m req scope test) is ∙ rw (condition_asks, made) refl),
          )

  gather-Collected :
      (policies : List PolicyData)
      → AreUsable m req scope policies
      → Collected m req scope test policies
  unfolding parse_metas collect_conditions meaning IsWellFormed
  gather-Collected [] h = ([], Conditions.no_conditions, refl, refl, tt, refl)
  gather-Collected (p ∷ ps) (h, hs) = elim (Bool-cases (same_scope p.scope scope)) [
    | inl same ↦ Collected-cons p ps (h same) (gather-Collected ps hs) same
    | inr other ↦ rw other (gather-Collected ps hs)
  ]

-- The restriction of a query for some policies, where `scope` is their widest and each policy of this
-- scope has no meta, or one that can be parsed and whose condition for the scope, if it has
-- one, can be rendered to a node that is empty or well-formed. The restriction is made, the
-- data layer's query accepts it as a scope, and for every meaning of the fields it holds of a
-- row just where the rendered condition of each policy of this scope does.
pub generate_restriction-Means :
    (test : String → String → Value → Bool) (m : PolicyManager) (req : PolicyRequest)
    (scope : PolicyScope) (p : PolicyData) (ps : List PolicyData)
    → IsWidest scope (p ∷ ps)
    → AreUsable m req scope (p ∷ ps)
    → (v : Value) × (es : List QueryExpression) × (generate_restriction m req (p ∷ ps) ≡ ok v)
      × (process [] v ≡ ok es)
      × (all_expressions test es ≡ all_ask m req scope test (p ∷ ps))
generate_restriction-Means test m req scope p ps widest usable =
    let (metas, cs, parsed, gathered, well, means) =
      gather-Collected test m req scope (p ∷ ps) usable in
    let same = sym (reconcile_scope-IsWidest scope (p ∷ ps) widest) in
    let (v, made, (es, read, all_hold)) =
      reconcile_condition-Means test m req p ps metas cs
        (subst (λ c. parse_metas m (filter (λ q. same_scope q.scope c) (p ∷ ps)) ≡ ok metas) same
          parsed)
        (subst (λ c. collect_conditions m req c metas ≡ ok cs) same gathered) well in
    (v, es, made, read, all_hold ∙ means)
