-- ===== src/Common/Sorting.antt =====
-- Python's `sorted`: a stable sort by a test that says which of two items may come first.
use mathlib.Core.Path.{◌≡◌, refl, ◌∙◌, ap}
use mathlib.Core.Logic.{inl, inr}
use mathlib.Core.Bool.{Bool, true, false, ◌&&◌}
use mathlib.Core.List.{List, [], ◌∷◌}
use native.Mathlib.Omega.{arith}
use fluvius_py.Common.Lists.{all}
use fluvius_py.Common.Branch.{if◌then◌else◌, Bool-cases, filter}

module _ {A : Type 0} (before : A → A → Bool) where
  unfoldable pub insert : A → List A → List A
  insert e [] = e ∷ []
  insert e (x ∷ xs) = let rest = insert e xs in if before e x then e ∷ x ∷ xs else x ∷ rest

  unfoldable pub sort : List A → List A
  sort [] = []
  sort (x ∷ xs) = insert x (sort xs)

  -- No item comes after one that may not come before it.
  abbrev pub InOrder : List A → Type 0
  InOrder [] = Unit {0}
  InOrder (x ∷ xs) = (all (before x) xs ≡ true) × InOrder xs

  all_mono :
      (p q : A → Bool) (xs : List A)
      → ((x : A) → p x ≡ true → q x ≡ true)
      → all p xs ≡ true
      → all q xs ≡ true
  all_mono p q [] f h = refl
  all_mono p q (x ∷ xs) f h = ground (arith, f x, all_mono p q xs f)

  all-insert :
      (p : A → Bool) (e : A) (xs : List A)
      → p e ≡ true
      → all p xs ≡ true
      → all p (insert e xs) ≡ true
  unfolding insert
  all-insert p e [] h k = ground arith
  all-insert p e (x ∷ xs) h k = elim (Bool-cases (before e x)) [
    | inl eq ↦ rw eq (rw h k)
    | inr ne ↦ rw ne (ground (arith, all-insert p e xs h))
  ]

  join : {a b : Bool} → a ≡ true → b ≡ true → (a && b) ≡ true
  join h k = ground arith

  module _ (trans : (a b c : A) → before a b ≡ true → before b c ≡ true → before a c ≡ true)
      (total : (a b : A) → before a b ≡ false → before b a ≡ true) where
    insert-InOrder : (e : A) (xs : List A) → InOrder xs → InOrder (insert e xs)
    unfolding insert
    insert-InOrder e [] h = (refl, tt)
    insert-InOrder e (x ∷ xs) (hx, h) = elim (Bool-cases (before e x)) [
      | inl eq ↦
          rw eq (join eq (all_mono (before x) (before e) xs (λ y k. trans e x y eq k) hx), (hx, h))
      | inr ne ↦ rw ne (all-insert (before x) e xs (total e x ne) hx, insert-InOrder e xs h)
    ]

    pub sort-InOrder : (xs : List A) → InOrder (sort xs)
    unfolding sort
    sort-InOrder [] = tt
    sort-InOrder (x ∷ xs) = insert-InOrder x (sort xs) (sort-InOrder xs)

  -- Items that may come in either order keep theirs.
  module _ (p : A → Bool)
      (together : (e x : A) → before e x ≡ false → p e ≡ true → p x ≡ false) where
    filter-insert : (e : A) (xs : List A) → filter p (insert e xs) ≡ filter p (e ∷ xs)
    unfolding insert
    filter-insert e [] = refl
    filter-insert e (x ∷ xs) =
        let ih = filter-insert e xs in
        elim (Bool-cases (before e x)) [
          | inl eq ↦ rw eq refl
          | inr ne ↦ rw ne (elim (Bool-cases (p e)) [
            | inl same ↦ rw (same, together e x ne same) (rw same at ih)
            | inr other ↦ rw other (ap (λ ys. if p x then x ∷ ys else ys) (rw other at ih))
          ])
        ]

    pub filter-sort : (xs : List A) → filter p (sort xs) ≡ filter p xs
    unfolding sort
    filter-sort [] = refl
    filter-sort (x ∷ xs) =
        filter-insert x (sort xs) ∙ ap (λ ys. if p x then x ∷ ys else ys) (filter-sort xs)

  -- Leaving out items keeps the order.
  all-filter : (p q : A → Bool) (xs : List A) → all q xs ≡ true → all q (filter p xs) ≡ true
  all-filter p q [] h = refl
  all-filter p q (x ∷ xs) h = ground (arith, all-filter p q xs)

  pub filter-InOrder : (p : A → Bool) (xs : List A) → InOrder xs → InOrder (filter p xs)
  filter-InOrder p [] h = tt
  filter-InOrder p (x ∷ xs) (hx, h) = elim (Bool-cases (p x)) [
    | inl eq ↦ rw eq (all-filter p (before x) xs hx, filter-InOrder p xs h)
    | inr ne ↦ rw ne (filter-InOrder p xs h)
  ]
