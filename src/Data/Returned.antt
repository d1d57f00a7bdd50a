-- ===== src/Data/Returned.antt =====
-- Operations of the driver that return.
use fluvius_py.Common.{◌≡◌, refl, sym, ◌∙◌, ap, ℕ, String, Bool, true, false, not, ◌==◌, arith}
use fluvius_py.Common.Dict.{Dict}
use fluvius_py.Exec.{
  Failure, Result, ok, raised, Exec, attempt, resume_with, lift, raise_if, ◌>>=◌, ok_inj,
}
use fluvius_py.Data.Columns.{Schema}
use fluvius_py.Data.Clauses.{Sqlalchemy}
use fluvius_py.Data.Statements.{Statement}
use fluvius_py.Data.Driver.{Cursor, Driver, Engine, execute, check_no_item_modified}
use fluvius_py.Data.Errors.{standard, sqla_error_handler}

-- `a; b; c` that returns: each returns
pub bind_ok :
    {S A B : Type 0} (m : Exec S A) (f : A → Exec S B) {s t : S} {b : B}
    → (m >>= f) s ≡ (ok b, t)
    → (a : A) × (u : S) × (m s ≡ (ok a, u)) × (f a u ≡ (ok b, t))
unfolding ◌>>=◌
bind_ok {S} {A} {B} m f {s} {t} {b} h = by_result (m s) refl h
  where
    by_result :
        (r : Result A × S)
        → m s ≡ r
        → resume_with f r.0 r.1 ≡ (ok b, t)
        → (a : A) × (u : S) × (m s ≡ (ok a, u)) × (f a u ≡ (ok b, t))
    by_result (ok a, u) e k = (a, u, e, k)
    by_result (raised x, u) e k = absurd (cc (ap (λ (z : Result B × S). z.0) k))

pub handler_ok :
    {S A : Type 0} (prefix : String) (m : Exec S A) {s t : S} {a : A}
    → sqla_error_handler prefix m s ≡ (ok a, t)
    → m s ≡ (ok a, t)
unfolding attempt
handler_ok {S} {A} prefix m {s} {t} {a} h = by_result (m s) h
  where
    by_result :
        (r : Result A × S)
        → ◌≡◌ {A = Result A × S} (standard prefix r.0, r.1) (ok a, t)
        → r ≡ (ok a, t)
    by_result (ok b, u) k = k
    by_result (raised x, u) k = absurd (cc (ap (λ (z : Result A × S). z.0) k))

-- `raise_if` that passes
pub passed :
    {S : Type 0} (b : Bool) (e : Failure) {s t : S} {u : Unit}
    → raise_if b e s ≡ (ok u, t)
    → (b ≡ false) × (s ≡ t)
passed true e h = absurd (cc (ap (λ (z : Result Unit × _). z.0) h))
passed false e h = (refl, ap (λ (z : Result Unit × _). z.1) h)

pub lifted :
    {S A : Type 0} (r : Result A) {s t : S} {a : A} → lift r s ≡ (ok a, t) → (r ≡ ok a) × (s ≡ t)
lifted {S} {A} r h = (ap (λ (z : Result A × S). z.0) h, ap (λ (z : Result A × S). z.1) h)

pub not-not : (b : Bool) → not b ≡ false → b ≡ true
not-not true h = refl
not-not false h = absurd (cc h)

pub same_count : (a b : ℕ) → not (a == b) ≡ false → a ≡ b
same_count a b h = ground arith

module _ {Clause Row Db : Type 0} (sql : Sqlalchemy Clause) (registry : Dict Schema)
    (engine : Engine Clause Row Db) where
  -- a statement that was executed and touched as many rows as expected
  pub executed :
      (stmt : Statement Clause) (expect : ℕ) (d after : Driver Db) (cursor : Cursor Row)
      → (execute sql registry engine stmt >>= λ c.
            check_no_item_modified sql registry engine c expect)
          d
        ≡ (ok cursor, after)
      → (engine.execute stmt d.db ≡ (ok cursor, after.db)) × (cursor.rowcount ≡ expect)
  executed stmt expect d after cursor h =
      let (c, u, ran, rest) = bind_ok _ _ h in
      let (t, v, counted, same) = bind_ok _ _ rest in
      let (right, u_is) = passed _ _ counted in
      let c_is : c ≡ cursor = ok_inj (ap (λ (z : Result (Cursor Row) × Driver Db). z.0) same) in
      let v_is : v ≡ after = ap (λ (z : Result (Cursor Row) × Driver Db). z.1) same in
      let result : (engine.execute stmt d.db).0 ≡ ok cursor =
        ap (λ (z : Result (Cursor Row) × Driver Db). z.0) ran ∙ ap ok c_is in
      let state : (engine.execute stmt d.db).1 ≡ after.db =
        ap (λ (z : Result (Cursor Row) × Driver Db). z.1.db) ran
        ∙ ap (λ (x : Driver Db). x.db) (u_is ∙ v_is) in
      (
        λ i. (result i, state i),
        ap (λ (x : Cursor Row). x.rowcount) (sym c_is) ∙ same_count c.rowcount expect right,
      )
