-- ===== src/Data/Truth.antt =====
-- The truth of clauses in SQL's three-valued logic, and what SQLAlchemy's functions promise of it.
use fluvius_py.Common.{
  ◌≡◌, refl, String, Bool, true, false, ◌&&◌, ◌||◌, List, [], ◌∷◌, ◌++◌, Option, none, some, str_eq,
  if◌then◌else◌, all,
}
use fluvius_py.Exec.{ok}
use fluvius_py.Query.Statements.{Value, Items}
use fluvius_py.Data.Columns.{Column, Operator}
use fluvius_py.Data.Clauses.{Sqlalchemy}

pub data Truth : Type 0 where
  holding failing unknown : Truth

abbrev pub opposite_of : Truth → Truth
opposite_of Truth.holding = Truth.failing
opposite_of Truth.failing = Truth.holding
opposite_of Truth.unknown = Truth.unknown

abbrev pub both_of : Truth → Truth → Truth
both_of Truth.holding t = t
both_of Truth.failing t = Truth.failing
both_of Truth.unknown Truth.failing = Truth.failing
both_of Truth.unknown Truth.holding = Truth.unknown
both_of Truth.unknown Truth.unknown = Truth.unknown

abbrev pub either_of : Truth → Truth → Truth
either_of Truth.failing t = t
either_of Truth.holding t = Truth.holding
either_of Truth.unknown Truth.holding = Truth.holding
either_of Truth.unknown Truth.failing = Truth.unknown
either_of Truth.unknown Truth.unknown = Truth.unknown

abbrev pub every_of : List Truth → Truth
every_of [] = Truth.holding
every_of (t ∷ ts) = both_of t (every_of ts)

abbrev pub some_of : List Truth → Truth
some_of [] = Truth.failing
some_of (t ∷ ts) = either_of t (some_of ts)

-- A statement takes the rows of which its condition is true, neither false nor unknown.
abbrev pub taken : Truth → Bool
taken Truth.holding = true
taken Truth.failing = false
taken Truth.unknown = false

pub taken-both_of : (s t : Truth) → taken (both_of s t) ≡ taken s && taken t
taken-both_of Truth.holding t = refl
taken-both_of Truth.failing t = refl
taken-both_of Truth.unknown Truth.holding = refl
taken-both_of Truth.unknown Truth.failing = refl
taken-both_of Truth.unknown Truth.unknown = refl

pub taken-either_of : (s t : Truth) → taken (either_of s t) ≡ taken s || taken t
taken-either_of Truth.failing t = refl
taken-either_of Truth.holding t = refl
taken-either_of Truth.unknown Truth.holding = refl
taken-either_of Truth.unknown Truth.failing = refl
taken-either_of Truth.unknown Truth.unknown = refl

-- the operator that compares the other way
abbrev pub opposite : Operator → Option Operator
opposite Operator.gt = some Operator.le
opposite Operator.ge = some Operator.lt
opposite Operator.eq = some Operator.ne
opposite Operator.ne = some Operator.eq
opposite Operator.lt = some Operator.ge
opposite Operator.le = some Operator.gt
opposite Operator.in_op = some Operator.notin_op
opposite Operator.notin_op = some Operator.in_op
opposite Operator.contains_op = none
opposite Operator.overlap_op = none
opposite Operator.ilike_op = none
opposite Operator.between_op = none

module _ {Clause Row : Type 0} (sql : Sqlalchemy Clause) (truth : Clause → Row → Truth) where
  abbrev pub truths : Row → List Clause → List Truth
  truths row [] = []
  truths row (c ∷ cs) = truth c row ∷ truths row cs

  -- What SQL says of conjunctions, disjunctions and negations, and of opposite comparisons.
  pub record IsSql : Type 0 where
    pub conjunction :
        (c : Clause) (cs : List Clause) (row : Row)
        → truth (sql.and_ (c ∷ cs)) row ≡ every_of (truths row (c ∷ cs))
    pub disjunction :
        (c : Clause) (cs : List Clause) (row : Row)
        → truth (sql.or_ (c ∷ cs)) row ≡ some_of (truths row (c ∷ cs))
    pub negation : (c : Clause) (row : Row) → truth (sql.not_ c) row ≡ opposite_of (truth c row)
    pub comparison :
        (a b : Operator) (column : Column) (v : Value) (x y : Clause) (row : Row)
        → opposite a ≡ some b
        → sql.compare a column v ≡ ok x
        → sql.compare b column v ≡ ok y
        → truth y row ≡ opposite_of (truth x row)

  -- a row that a statement with these clauses takes
  abbrev pub takes : List Clause → Row → Bool
  takes cs row = all (λ c. taken (truth c row)) cs

-- What an expression says of a row, given what the expressions of fields say.
module _ (leaf : String → String → String → Value → Truth) where
  abbrev pub in_mode : String → Truth → Truth
  in_mode mode t = if str_eq mode "!" then opposite_of t else t

  abbrev pub group_says : String → String → List Truth → Truth
  group_says operator mode parts =
      in_mode mode (if str_eq operator "or" then some_of parts else every_of parts)

  abbrev pub expression_says : Option String → String → String → Value → List Truth → Truth
  expression_says none operator mode value parts = group_says operator mode parts
  expression_says (some name) operator mode value parts =
      if str_eq name "" then group_says operator mode parts else leaf name operator mode value

  -- what each expression of a value says, with lists taken apart
  unfoldable mutual
    pub each_says : Value → List Truth
    each_says (Value.query_expression name operator mode value) =
        expression_says name operator mode value (each_says value) ∷ []
    each_says (Value.list items) = items_say items
    each_says Value.null = []
    each_says (Value.flag b) = []
    each_says (Value.number n) = []
    each_says (Value.text s) = []
    each_says (Value.object _) = []

    pub items_say : Items → List Truth
    items_say Items.no_items = []
    items_say (Items.item v items) = each_says v ++ items_say items
