-- ===== src/Policy/Outcome.antt =====
-- What a request for a permission comes to.
use fluvius_py.Common.{◌≡◌, Bool, true, false, ◌⊎◌, List, str_eq, any}
use fluvius_py.Exec.{Result, ok}
use fluvius_py.Query.Statements.{Value, Members}
use fluvius_py.Policy.Manager.{
  PolicyData, PolicyRequest, PolicyResponse, PolicyManager, generate_restriction,
}

abbrev pub nothing : Value
nothing = Value.object Members.no_members

abbrev pub is_super : PolicyManager → PolicyRequest → Bool
is_super m req = any (str_eq m.super_admin_role) req.iamroles

-- The restriction of a request: of a query, what the policies that matched say, else none.
abbrev pub Restricts : PolicyManager → PolicyRequest → PolicyResponse → Type 0
Restricts m req resp =
    ((str_eq req.cqrs "QUERY" ≡ true)
      × (generate_restriction m req resp.policies ≡ ok resp.restriction))
    ⊎ ((str_eq req.cqrs "QUERY" ≡ false) × (resp.restriction ≡ nothing))

abbrev pub Answers : PolicyManager → PolicyRequest → PolicyResponse → Type 0
Answers m req resp =
    ((is_super m req ≡ true) × (resp.allowed ≡ true) × (resp.restriction ≡ nothing))
    ⊎ ((is_super m req ≡ false)
        × (m.enforce req ≡ ok (resp.allowed, resp.policies))
        × Restricts m req resp)

abbrev answer_of : Bool → List PolicyData → Result (Bool × List PolicyData)
answer_of allowed policies = ok (allowed, policies)
