-- ===== src/Navis/Runner/Traces/Rules.antt =====
-- Rules that follow the shape of a method: what it runs through is a sequence of moves, and it ends
-- in the same transaction with the action stack no lower than a given depth.
use fluvius_py.Common.{
  ℕ, suc, ◌≤◌, ◌≡◌, refl, sym, ◌∙◌, Bool, true, false, Option, none, some, List, [], ◌∷◌, arith,
  length, is_some, if◌then◌else◌,
}
use fluvius_py.Navis.Data.{Uuid, Mutation, MutateCall}
use fluvius_py.Exec.{Failure, Result, ok, raised, raise_if, ◌>>=◌, ◌>>◌}
use fluvius_py.Navis.Runner.Script.{Engine}
use fluvius_py.Navis.Runner.State.{ActionContext, Runner, Run}
use fluvius_py.Navis.Runner.Primitives.{mutate, mutate_at, mutate_in, enqueue}
use fluvius_py.Navis.Runner.Moves.{Move, Change, Reach, here, next, changes, Reach-trans}

pub record Good (d : ℕ) (s : Runner) : Type 0 where
  pub in_transaction : is_some s.transaction_id ≡ true
  pub deep : d ≤ length s.action_context

pub record Ends (E : Engine) {A : Type 0} (d : ℕ) (s : Runner) (r : Result A × Runner)
    : Type 0 where
  pub reach : Reach E s r.1
  pub good : Good d r.1

pub Good-le : {d e : ℕ} {s : Runner} → e ≤ d → Good d s → Good e s
Good-le le g = record { in_transaction = g.in_transaction; deep = omega (arith, g.deep) }

module _ {E : Engine} {A : Type 0} where
  pub Ends-at : {d : ℕ} {s : Runner} (r : Result A) → Good d s → Ends E d s (r, s)
  Ends-at r g = record { reach = here; good = g }

  pub Ends-Move : {d : ℕ} {s t : Runner} (r : Result A) → Move E s t → Good d t → Ends E d s (r, t)
  Ends-Move r m g = record { reach = next here m; good = g }

  pub Ends-le : {d e : ℕ} {s : Runner} {r : Result A × Runner} → e ≤ d → Ends E d s r → Ends E e s r
  Ends-le le h = record { reach = h.reach; good = Good-le le h.good }

  pub Ends-after :
      {d : ℕ} {s t : Runner} {r : Result A × Runner} → Reach E s t → Ends E d t r → Ends E d s r
  Ends-after q h = record { reach = Reach-trans q h.reach; good = h.good }

  pub Ends-if :
      {d : ℕ} {s : Runner} (b : Bool) (m n : Run A)
      → Ends E d s (m s)
      → Ends E d s (n s)
      → Ends E d s ((if b then m else n) s)
  Ends-if true m n h k = h
  Ends-if false m n h k = k

  pub Ends-raise_if :
      {d : ℕ} {s : Runner} (b : Bool) (e : Failure) (n : Run A)
      → Good d s
      → (b ≡ false → Ends E d s (n s))
      → Ends E d s ((raise_if b e >> n) s)
  unfolding ◌>>=◌
  Ends-raise_if true e n g h = Ends-at (raised e) g
  Ends-raise_if false e n g h = h refl

pub Ends-raise_last :
    {E : Engine} {d : ℕ} {s : Runner} (b : Bool) (e : Failure)
    → Good d s
    → Ends E d s (raise_if b e s)
Ends-raise_last true e g = Ends-at (raised e) g
Ends-raise_last false e g = Ends-at (ok tt) g

module _ {E : Engine} {A B : Type 0} where
  Ends-resume :
      {d e : ℕ} {s : Runner} (r : Result A × Runner) (f : A → Run B)
      → e ≤ d
      → Ends E d s r
      → ((a : A) (t : Runner) → r ≡ (ok a, t) → Reach E s t → Good d t → Ends E e t (f a t))
      → Ends E e s (((λ _. r) >>= f) s)
  unfolding ◌>>=◌
  Ends-resume (ok a, t) f le h k = Ends-after h.reach (k a t refl h.reach h.good)
  Ends-resume (raised x, t) f le h k = record { reach = h.reach; good = Good-le le h.good }

  -- the rule for `m; f`, where the rest may end at a lower depth
  pub Ends-bind :
      {d e : ℕ} {s : Runner} (m : Run A) (f : A → Run B)
      → e ≤ d
      → Ends E d s (m s)
      → ((a : A) (t : Runner) → m s ≡ (ok a, t) → Reach E s t → Good d t → Ends E e t (f a t))
      → Ends E e s ((m >>= f) s)
  unfolding ◌>>=◌
  Ends-bind {s = s} m f le h k = Ends-resume (m s) f le h k

mutate-fields :
    (m : Mutation) (t : Runner) (tx : Option Uuid) (stack : List ActionContext)
    → is_some tx ≡ true
    → 1 ≤ length stack
    → (i : Uuid) × (a : ActionContext) × (tx ≡ some i)
      × (mutate_at (MutateCall.fields_of m) tx stack t ≡ (ok tt, enqueue m i a t))
unfolding mutate_at mutate_in
mutate-fields m t none stack h l = cc
mutate-fields m t (some i) [] h l = absurd (omega arith)
mutate-fields m t (some i) (a ∷ stack) h l = (i, a, refl, refl)

-- In a transaction and an action, `mutate` completes a change to a move.
pub Ends-mutate :
    {E : Engine} {d : ℕ} (s t : Runner) (m : Mutation)
    → Good (suc d) s
    → Change E s m t
    → t.transaction_id ≡ s.transaction_id
    → t.action_context ≡ s.action_context
    → Ends E (suc d) s (mutate (MutateCall.fields_of m) t)
unfolding mutate
Ends-mutate {E} {d} s t m g c same_tx same_stack =
    let deep : suc d ≤ length t.action_context = rw same_stack g.deep in
    let open_tx : is_some t.transaction_id ≡ true = rw same_tx g.in_transaction in
    let (i, a, e, q) = mutate-fields m t t.transaction_id t.action_context open_tx (omega arith) in
    rw q (
      Ends-Move (ok tt) (changes m i a (sym same_tx ∙ e) c)
        (record { in_transaction = open_tx; deep = deep }))
