-- ===== src/Data/Example.antt =====
-- A small database: the clauses are their truth of a row, and a table is a list of rows.
use fluvius_py.Common.{
  ◌≡◌, ◌≢◌, refl, sym, ◌∙◌, ap, subst, String, true, false, not, List, [], ◌∷◌, Option, none, some,
  str_eq, eq_iff, eq_refl, filter, length, if◌then◌else◌, inl, inr, Bool-cases,
}
use fluvius_py.Common.Dict.{Dict, get, put}
use fluvius_py.Exec.{DriverError, Result, ok, ok_inj}
use fluvius_py.Query.Statements.{Value, Members}
use fluvius_py.Data.Columns.{Operator}
use fluvius_py.Data.Clauses.{Sqlalchemy}
use fluvius_py.Data.Statements.{Statement}
use fluvius_py.Data.Truth.{Truth, opposite_of, every_of, some_of, opposite, takes, truths, IsSql}
use fluvius_py.Data.Driver.{Cursor, Engine}
use fluvius_py.Data.Effects.{map_if, IsDatabase}

abbrev pub Row : Type 0
Row = Dict String

abbrev pub Clause : Type 0
Clause = Row → Truth

abbrev pub truth : Clause → Row → Truth
truth c row = c row

abbrev same_value : Option String → Value → Truth
same_value (some s) (Value.text t) = if str_eq s t then Truth.holding else Truth.failing
same_value (some s) Value.null = Truth.failing
same_value (some s) (Value.flag b) = Truth.unknown
same_value (some s) (Value.number n) = Truth.unknown
same_value (some s) (Value.list items) = Truth.unknown
same_value (some s) (Value.object _) = Truth.unknown
same_value (some s) (Value.query_expression name operator mode value) = Truth.unknown
same_value none v = Truth.unknown

abbrev compared : Operator → Option String → Value → Truth
compared Operator.eq s v = same_value s v
compared Operator.ne s v = opposite_of (same_value s v)
compared Operator.in_op s v = same_value s v
compared Operator.notin_op s v = opposite_of (same_value s v)
compared Operator.gt s v = Truth.unknown
compared Operator.ge s v = Truth.unknown
compared Operator.lt s v = Truth.unknown
compared Operator.le s v = Truth.unknown
compared Operator.contains_op s v = Truth.unknown
compared Operator.overlap_op s v = Truth.unknown
compared Operator.ilike_op s v = Truth.unknown
compared Operator.between_op s v = Truth.unknown

abbrev is_none : Option String → Truth
is_none none = Truth.holding
is_none (some s) = Truth.failing

abbrev each : Row → List Clause → List Truth
each row [] = []
each row (c ∷ cs) = c row ∷ each row cs

abbrev pub sql : Sqlalchemy Clause
sql = record {
  compare = λ op c v. ok (λ row. compared op (get c.name row) v);
  between = λ c low high. ok (λ row. Truth.unknown);
  and_ = λ cs. λ row. every_of (each row cs);
  or_ = λ cs. λ row. some_of (each row cs);
  not_ = λ c. λ row. opposite_of (c row);
  is_null = λ c. λ row. is_none (get c.name row);
  ts_match = λ cs text. λ row. Truth.unknown;
  sorted = λ c dir. ok (λ row. Truth.holding);
}

opposite-opposite_of : (t : Truth) → t ≡ opposite_of (opposite_of t)
opposite-opposite_of Truth.holding = refl
opposite-opposite_of Truth.failing = refl
opposite-opposite_of Truth.unknown = refl

some_inj : {A : Type 0} {a b : A} → some a ≡ some b → a ≡ b
some_inj h = cc h

compared-opposite :
    (a b : Operator) (s : Option String) (v : Value)
    → opposite a ≡ some b
    → compared b s v ≡ opposite_of (compared a s v)
compared-opposite Operator.gt b s v h =
    subst (λ x. compared x s v ≡ opposite_of (compared Operator.gt s v)) (some_inj h) refl
compared-opposite Operator.ge b s v h =
    subst (λ x. compared x s v ≡ opposite_of (compared Operator.ge s v)) (some_inj h) refl
compared-opposite Operator.eq b s v h =
    subst (λ x. compared x s v ≡ opposite_of (compared Operator.eq s v)) (some_inj h) refl
compared-opposite Operator.ne b s v h =
    subst (λ x. compared x s v ≡ opposite_of (compared Operator.ne s v)) (some_inj h)
      (opposite-opposite_of (same_value s v))
compared-opposite Operator.lt b s v h =
    subst (λ x. compared x s v ≡ opposite_of (compared Operator.lt s v)) (some_inj h) refl
compared-opposite Operator.le b s v h =
    subst (λ x. compared x s v ≡ opposite_of (compared Operator.le s v)) (some_inj h) refl
compared-opposite Operator.in_op b s v h =
    subst (λ x. compared x s v ≡ opposite_of (compared Operator.in_op s v)) (some_inj h) refl
compared-opposite Operator.notin_op b s v h =
    subst (λ x. compared x s v ≡ opposite_of (compared Operator.notin_op s v)) (some_inj h)
      (opposite-opposite_of (same_value s v))
compared-opposite Operator.contains_op b s v h = absurd (cc h)
compared-opposite Operator.overlap_op b s v h = absurd (cc h)
compared-opposite Operator.ilike_op b s v h = absurd (cc h)
compared-opposite Operator.between_op b s v h = absurd (cc h)

each-truths : (row : Row) (cs : List Clause) → each row cs ≡ truths sql truth row cs
each-truths row [] = refl
each-truths row (c ∷ cs) = ap (λ ts. c row ∷ ts) (each-truths row cs)

pub is_sql : IsSql sql truth
is_sql = record {
  conjunction = λ c cs row. ap every_of (ap (λ ts. c row ∷ ts) (each-truths row cs));
  disjunction = λ c cs row. ap some_of (ap (λ ts. c row ∷ ts) (each-truths row cs));
  negation = λ c row. refl;
  comparison = λ a b column v x y row turned first second.
      ap (λ (z : Clause). z row) (sym (ok_inj second))
      ∙ compared-opposite a b (get column.name row) v turned
      ∙ ap (λ (z : Clause). opposite_of (z row)) (ok_inj first);
}

abbrev pub Db : Type 0
Db = String → List Row

abbrev pub table : Db → String → List Row
table db name = db name

abbrev written : String → Value → Row → Row
written key (Value.text s) row = put key s row
written key Value.null row = row
written key (Value.flag b) row = row
written key (Value.number n) row = row
written key (Value.list items) row = row
written key (Value.object _) row = row
written key (Value.query_expression name operator mode value) row = row

abbrev all_written : Members → Row → Row
all_written Members.no_members row = row
all_written (Members.member key v rest) row = all_written rest (written key v row)

-- the texts of an object are written
abbrev pub apply : Option Value → Row → Row
apply (some (Value.object changes)) row = all_written changes row
apply none row = row
apply (some Value.null) row = row
apply (some (Value.flag b)) row = row
apply (some (Value.number n)) row = row
apply (some (Value.text s)) row = row
apply (some (Value.list items)) row = row
apply (some (Value.query_expression name operator mode value)) row = row

abbrev with_table : String → List Row → Db → Db
with_table name rows db other = if str_eq other name then rows else db other

abbrev executed : Statement Clause → Db → Result (Cursor Row) × Db
executed (Statement.select name s) db =
    let rows = filter (takes sql truth s.where_) (db name) in
    (ok (record { rowcount = length rows; rows = rows }), db)
executed (Statement.update name cs values) db = (
  ok (record { rowcount = length (filter (takes sql truth cs) (db name)); rows = [] }),
  with_table name (map_if (takes sql truth cs) (apply values) (db name)) db,
)
executed (Statement.delete name cs) db = (
  ok (record { rowcount = length (filter (takes sql truth cs) (db name)); rows = [] }),
  with_table name (filter (λ row. not (takes sql truth cs row)) (db name)) db,
)
executed (Statement.insert name values) db = (ok (record { rowcount = 1; rows = [] }), db)
executed (Statement.upsert name row keys) db = (ok (record { rowcount = 1; rows = [] }), db)

abbrev plain_error : DriverError
plain_error = record {
  is_integrity = false;
  is_unique_violation = false;
  is_operational = false;
  is_programming = false;
  is_dbapi = false;
  is_no_result = false;
  is_sqlalchemy = true;
  pgcode = "";
}

abbrev pub engine : Engine Clause Row Db
engine = record {
  execute = executed;
  count = λ s db. (ok 0, db);
  no_result = record plain_error { is_no_result = true };
  multiple_results = plain_error;
}

with_table_self : (name : String) (rows : List Row) (db : Db) → with_table name rows db name ≡ rows
with_table_self name rows db = rw (eq_refl name) refl

with_table-other :
    (name other : String) (rows : List Row) (db : Db)
    → other ≢ name
    → with_table name rows db other ≡ db other
with_table-other name other rows db apart = elim (Bool-cases (str_eq other name)) [
  | inl same ↦ absurd (apart ((eq_iff other name).0 same))
  | inr differs ↦ rw differs refl
]

counted :
    {c d : Cursor Row} {db after : Db}
    → ◌≡◌ {A = Result (Cursor Row) × Db} (ok c, db) (ok d, after)
    → c.rowcount ≡ d.rowcount
counted h =
    ap (λ (x : Cursor Row). x.rowcount) (ok_inj (ap (λ (z : Result (Cursor Row) × Db). z.0) h))

stored :
    {c d : Cursor Row} {db after : Db}
    → ◌≡◌ {A = Result (Cursor Row) × Db} (ok c, db) (ok d, after)
    → db ≡ after
stored h = ap (λ (z : Result (Cursor Row) × Db). z.1) h

pub is_database : IsDatabase sql truth engine table apply
is_database = record {
  updates = λ name cs values db after cursor h. (
    sym (counted h),
    sym (ap (λ (z : Db). z name) (stored h)) ∙ with_table_self name _ db,
    λ other apart.
        sym (ap (λ (z : Db). z other) (stored h)) ∙ with_table-other name other _ db apart,
  );
  deletes = λ name cs db after cursor h. (
    sym (counted h),
    sym (ap (λ (z : Db). z name) (stored h)) ∙ with_table_self name _ db,
    λ other apart.
        sym (ap (λ (z : Db). z other) (stored h)) ∙ with_table-other name other _ db apart,
  );
}
