-- ===== src/Policy/Widest.antt =====
-- The widest scope of policies.
use fluvius_py.Common.{
  ◌≡◌, refl, sym, ◌∙◌, Bool, true, false, inl, inr, Bool-cases, List, [], ◌∷◌, any,
}
use fluvius_py.Policy.Manager.{PolicyScope, same_scope, PolicyData, reconcile_scope}

-- The first scope is wider than the second.
abbrev pub wider : PolicyScope → PolicyScope → Bool
wider PolicyScope.system PolicyScope.tenant = true
wider PolicyScope.system PolicyScope.resource = true
wider PolicyScope.tenant PolicyScope.resource = true
wider PolicyScope.system PolicyScope.system = false
wider PolicyScope.tenant PolicyScope.system = false
wider PolicyScope.tenant PolicyScope.tenant = false
wider PolicyScope.resource PolicyScope.system = false
wider PolicyScope.resource PolicyScope.tenant = false
wider PolicyScope.resource PolicyScope.resource = false

-- Some policy has the scope, and no policy has a wider one.
abbrev pub IsWidest : PolicyScope → List PolicyData → Type 0
IsWidest scope policies =
    (any (λ p. same_scope p.scope scope) policies ≡ true)
    × (any (λ p. wider p.scope scope) policies ≡ false)

same-wider :
    (s wide scope : PolicyScope)
    → wider wide scope ≡ true
    → same_scope s wide ≡ true
    → wider s scope ≡ true
same-wider PolicyScope.system PolicyScope.system scope h e = h
same-wider PolicyScope.tenant PolicyScope.tenant scope h e = h
same-wider PolicyScope.resource PolicyScope.resource scope h e = h
same-wider PolicyScope.system PolicyScope.tenant scope h e = absurd (cc e)
same-wider PolicyScope.system PolicyScope.resource scope h e = absurd (cc e)
same-wider PolicyScope.tenant PolicyScope.system scope h e = absurd (cc e)
same-wider PolicyScope.tenant PolicyScope.resource scope h e = absurd (cc e)
same-wider PolicyScope.resource PolicyScope.system scope h e = absurd (cc e)
same-wider PolicyScope.resource PolicyScope.tenant scope h e = absurd (cc e)

-- No policy has a scope that is wider than the widest.
no_wider :
    (wide scope : PolicyScope) (policies : List PolicyData)
    → wider wide scope ≡ true
    → any (λ p. wider p.scope scope) policies ≡ false
    → any (λ p. same_scope p.scope wide) policies ≡ false
no_wider wide scope [] w h = refl
no_wider wide scope (p ∷ ps) w h = elim (Bool-cases (wider p.scope scope)) [
  | inl more ↦ absurd (cc (rw more at h))
  | inr less ↦ elim (Bool-cases (same_scope p.scope wide)) [
    | inl same ↦ absurd (cc (sym less ∙ same-wider p.scope wide scope w same))
    | inr other ↦ rw other (no_wider wide scope ps w (rw less at h))
  ]
]

-- Policies have one widest scope, and it is the one that they are reconciled to.
pub reconcile_scope-IsWidest :
    (scope : PolicyScope) (policies : List PolicyData)
    → IsWidest scope policies
    → reconcile_scope policies ≡ scope
unfolding reconcile_scope
reconcile_scope-IsWidest PolicyScope.system ps (there, above) = rw there refl
reconcile_scope-IsWidest PolicyScope.tenant ps (there, above) =
    rw (no_wider PolicyScope.system PolicyScope.tenant ps refl above, there) refl
reconcile_scope-IsWidest PolicyScope.resource ps (there, above) =
    rw
      (
        no_wider PolicyScope.system PolicyScope.resource ps refl above,
        no_wider PolicyScope.tenant PolicyScope.resource ps refl above,
        there,
      )
      refl
