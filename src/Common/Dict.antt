-- ===== src/Common/Dict.antt =====
-- Python's `dict` with string keys: pairs in insertion order, each key once. A UUID is its text.
use Prim.Native.String.{String}
use mathlib.Core.Path.{◌≡◌, refl, ap, ◌∙◌}
use mathlib.Core.Bool.{Bool, true, false}
use mathlib.Core.Option.{Option, none, some}
use mathlib.Core.List.{List, [], ◌∷◌, ◌++◌}
use native.Mathlib.Omega.{arith}
use text.Mathlib.Text.{◌==◌}
use text.Mathlib.TextEquality.{eq_iff}
use text.Mathlib.TextPositions.{eq_refl}

abbrev branch {ℓ} : {A : Type ℓ} → Bool → A → A → A
branch true x y = x
branch false x y = y

abbrev pub Dict {ℓ} : Type ℓ → Type ℓ
Dict V = List (String × V)

module _ {ℓ} {V : Type ℓ} where
  unfoldable pub get : String → Dict V → Option V
  get k [] = none
  get k ((j, v) ∷ d) = branch (j == k) (some v) (get k d)

  -- `d[k] = v`: a key that is there keeps its place.
  unfoldable pub put : String → V → Dict V → Dict V
  put k v [] = (k, v) ∷ []
  put k v ((j, w) ∷ d) = branch (j == k) ((j, v) ∷ d) ((j, w) ∷ put k v d)

  -- `d.update(e)`
  unfoldable pub update : Dict V → Dict V → Dict V
  update d [] = d
  update d ((k, v) ∷ e) = update (put k v d) e

  abbrev pub values : Dict V → List V
  values [] = []
  values ((k, v) ∷ d) = v ∷ values d

  pub get-put :
      (k j : String) (v : V) (d : Dict V) → get j (put k v d) ≡ branch (k == j) (some v) (get j d)
  unfolding get put
  get-put k j v [] = refl
  get-put k j v ((i, w) ∷ d) = ground (arith, get-put k j v d, eq_iff k j, eq_iff i k, eq_iff i j)

  pub get-put_self : (k : String) (v : V) (d : Dict V) → get k (put k v d) ≡ some v
  get-put_self k v d = simp (get-put, eq_refl)

  pub get-put_eq :
      (k j : String) (v : V) (d : Dict V) → (k == j) ≡ true → get j (put k v d) ≡ some v
  get-put_eq k j v d h = get-put k j v d ∙ ap (λ b. branch b (some v) (get j d)) h

  pub get-put_ne :
      (k j : String) (v : V) (d : Dict V) → (k == j) ≡ false → get j (put k v d) ≡ get j d
  get-put_ne k j v d h = get-put k j v d ∙ ap (λ b. branch b (some v) (get j d)) h

  -- A new key goes to the end.
  pub put_new : (k : String) (v : V) (d : Dict V) → get k d ≡ none → put k v d ≡ d ++ (k, v) ∷ []
  unfolding get put
  put_new k v [] h = refl
  put_new k v ((i, w) ∷ d) h = ground (arith, put_new k v d)
