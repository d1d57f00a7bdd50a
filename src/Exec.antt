-- ===== src/Exec.antt =====
-- Methods of an object that may raise. The object keeps what was written before a raise, so the new
-- state stands beside the error too.
use fluvius_py.Common.{◌≡◌, refl, ap, String, Bool, true, false, Option, none, some}

-- An exception of SQLAlchemy: the classes it is an instance of, and the code of the database.
pub record DriverError : Type 0 where
  pub is_integrity : Bool
  pub is_unique_violation : Bool
  pub is_operational : Bool
  pub is_programming : Bool
  pub is_dbapi : Bool
  pub is_no_result : Bool
  pub is_sqlalchemy : Bool
  pub pgcode : String

-- The exceptions of the engine with their codes, and those of Python and of user code.
pub data Failure : Type 0 where
  execution_error : String → Failure
  configuration_error : String → Failure
  bad_request : String → Failure
  not_found : String → Failure
  forbidden : String → Failure
  internal_error : String → Failure
  precondition_failed : String → Failure
  type_error : Failure
  validation_error : Failure
  key_error : String → Failure
  recursion_error : Failure
  attribute_error : String → Failure
  value_error : String → Failure
  index_error : Failure
  unprocessable : String → Failure
  driver_error : DriverError → Failure
  zero_division_error : Failure
  assertion_error : Failure
  user_error : String → Failure

pub data Result (A : Type 0) : Type 0 where
  ok : A → Result A
  raised : Failure → Result A

abbrev pub Exec : Type 0 → Type 0 → Type 0
Exec S A = S → Result A × S

abbrev pub and_then : {A B : Type 0} → Result A → (A → Result B) → Result B
and_then (ok a) f = f a
and_then (raised e) f = raised e

-- A result comes from results.
pub and_then_ok :
    {A B : Type 0} (r : Result A) (f : A → Result B) {b : B}
    → and_then r f ≡ ok b
    → (a : A) × (r ≡ ok a) × (f a ≡ ok b)
and_then_ok (ok a) f h = (a, refl, h)
and_then_ok (raised e) f h = absurd (cc h)

pub ok_inj : {A : Type 0} {a b : A} → ok a ≡ ok b → a ≡ b
ok_inj h = cc h

-- a look-up that fails with `e`
abbrev pub require : {A : Type 0} → Failure → Option A → Result A
require e none = raised e
require e (some a) = ok a

pub require_ok : {A : Type 0} (e : Failure) (o : Option A) {a : A} → require e o ≡ ok a → o ≡ some a
require_ok e none h = absurd (cc h)
require_ok e (some b) h = ap some (ok_inj h)

module _ {S A : Type 0} where
  abbrev pub pure : A → Exec S A
  pure a s = (ok a, s)

  abbrev pub raise : Failure → Exec S A
  raise e s = (raised e, s)

  -- a lookup that fails with `e`
  abbrev pub lift : Result A → Exec S A
  lift r s = (r, s)

  abbrev pub gets : (S → A) → Exec S A
  gets f s = (ok (f s), s)

module _ {S : Type 0} where
  abbrev pub modify : (S → S) → Exec S Unit
  modify f s = (ok tt, f s)

  -- `if test: raise e`
  abbrev pub raise_if : Bool → Failure → Exec S Unit
  raise_if true e s = (raised e, s)
  raise_if false e s = (ok tt, s)

module _ {S A B : Type 0} where
  abbrev pub resume_with : (A → Exec S B) → Result A → S → Result B × S
  resume_with f (ok a) s = f a s
  resume_with f (raised e) s = (raised e, s)

  -- `try` with a handler that is given what the method returned or raised
  unfoldable pub attempt : Exec S A → (Result A → Exec S B) → Exec S B
  attempt m f s = let (r, t) = m s in f r t

  infixl 5 ◌>>=◌ ◌>>◌
  unfoldable pub ◌>>=◌ : Exec S A → (A → Exec S B) → Exec S B
  ◌>>=◌ m f s = let (r, t) = m s in resume_with f r t

  abbrev pub ◌>>◌ : Exec S A → Exec S B → Exec S B
  m >> n = m >>= λ _. n

  -- a step that returns hands its value and state on
  pub bind-ok :
      (m : Exec S A) (f : A → Exec S B) {s t : S} {a : A} → m s ≡ (ok a, t) → (m >>= f) s ≡ f a t
  unfolding ◌>>=◌
  bind-ok m f e = ap (λ (r : Result A × S). resume_with f r.0 r.1) e

  pub bind-raised :
      (m : Exec S A) (f : A → Exec S B) {s t : S} {x : Failure}
      → m s ≡ (raised x, t)
      → (m >>= f) s ≡ (raised x, t)
  unfolding ◌>>=◌
  bind-raised m f e = ap (λ (r : Result A × S). resume_with f r.0 r.1) e

-- What holds after a method, of a result with its state, or of the state after a raise.
abbrev pub After {ℓ} : {S A : Type 0} → (A → S → Type ℓ) → (S → Type ℓ) → Result A × S → Type ℓ
After Q F (ok a, t) = Q a t
After Q F (raised e, t) = F t

-- A method that starts where `P` holds ends as `After` says.
pub record Triple {ℓ} {S A : Type 0} (P : S → Type ℓ) (m : Exec S A) (Q : A → S → Type ℓ)
    (F : S → Type ℓ) : Type ℓ where
  pub ends : (s : S) → P s → After Q F (m s)

module _ {ℓ} {S : Type 0} {P F : S → Type ℓ} where
  module _ {A : Type 0} {Q : A → S → Type ℓ} where
    pub Triple-bind :
        {B : Type 0} {R : B → S → Type ℓ} {m : Exec S A} {f : A → Exec S B}
        → Triple P m Q F
        → ((a : A) → Triple (Q a) (f a) R F)
        → Triple P (m >>= f) R F
    unfolding ◌>>=◌
    Triple-bind {B} {R} {m} {f} h k = record { ends = λ s p. go (m s) (h.ends s p) }
      where
        go : (r : Result A × S) → After Q F r → After R F (resume_with f r.0 r.1)
        go (ok a, t) q = (k a).ends t q
        go (raised e, t) q = q

    pub Triple-pure : (a : A) → ((s : S) → P s → Q a s) → Triple P (pure a) Q F
    Triple-pure a h = record { ends = h }

  pub Triple-attempt :
      {A B : Type 0} {R : B → S → Type ℓ} {T : S → Type ℓ} {m : Exec S A} {f : Result A → Exec S B}
      → Triple P m (λ _. T) T
      → ((r : Result A) → Triple T (f r) R F)
      → Triple P (attempt m f) R F
  unfolding attempt
  Triple-attempt {A} {B} {R} {T} {m} {f} h k = record { ends = λ s p. go (m s) (h.ends s p) }
    where
      go : (r : Result A × S) → After (λ _. T) T r → After R F (f r.0 r.1)
      go (ok a, t) q = (k (ok a)).ends t q
      go (raised e, t) q = (k (raised e)).ends t q

  pub Triple-modify :
      {Q : S → Type ℓ} (g : S → S) → ((s : S) → P s → Q (g s)) → Triple P (modify g) (λ _. Q) F
  Triple-modify g h = record { ends = h }

  module _ (fail : (s : S) → P s → F s) where
    pub Triple-raise_if : (b : Bool) (e : Failure) → Triple P (raise_if b e) (λ _. P) F
    Triple-raise_if true e = record { ends = fail }
    Triple-raise_if false e = record { ends = λ s p. p }

    pub Triple-lift : {A : Type 0} (r : Result A) → Triple P (lift r) (λ _. P) F
    Triple-lift (ok a) = record { ends = λ s p. p }
    Triple-lift (raised e) = record { ends = fail }

-- A method after which `P` still holds, or `F` when it raised.
abbrev pub Kept {ℓ} : {S A : Type 0} → (S → Type ℓ) → (S → Type ℓ) → Exec S A → Type ℓ
Kept P F m = Triple P m (λ _. P) F

-- what a method may rely on after a step that always raises
pub Triple-never :
    {S A : Type 0} {R : A → S → Type 0} {F : S → Type 0} (m : Exec S A) → Triple (λ _. ⊥) m R F
Triple-never m = record { ends = λ s p. absurd p }
