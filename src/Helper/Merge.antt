-- ===== src/Helper/Merge.antt =====
-- helper/genutil.py: merge_order, which puts the items of an update into an order.
use fluvius_py.Common.{
  ℕ, zero, suc, ◌+◌, leb, String, Bool, Option, none, some, List, [], ◌∷◌, ◌++◌, if◌then◌else◌,
}
use fluvius_py.Common.Sorting.{sort}
use fluvius_py.Helper.Values.{index_of, unique}

-- `xs.insert(n, x)`, at the end for a place beyond it
unfoldable pub insert_at : ℕ → String → List String → List String
insert_at zero x xs = x ∷ xs
insert_at (suc n) x [] = x ∷ []
insert_at (suc n) x (y ∷ ys) = y ∷ insert_at n x ys

-- `xs[n] = x`, none for an IndexError
unfoldable pub set_at : ℕ → String → List String → Option (List String)
set_at n x [] = none
set_at zero x (y ∷ ys) = some (x ∷ ys)
set_at (suc n) x (y ∷ ys) = elim (set_at n x ys) [ none ↦ none | some zs ↦ some (y ∷ zs) ]

-- `old_idx`, and the sorted indices of the items that are there
abbrev pub old_indices : List String → List String → List (Option ℕ)
old_indices [] original = []
old_indices (x ∷ xs) original = index_of x original ∷ old_indices xs original

abbrev pub present : List (Option ℕ) → List ℕ
present [] = []
present (none ∷ os) = present os
present (some n ∷ os) = n ∷ present os

-- The loop over the update. The state is the place after the cursor, the number of items added, the
-- indices that `new_idx[counter]` has still to give, and the list.
unfoldable pub merge_items :
    List String → List (Option ℕ) → ℕ → ℕ → List ℕ → List String → Option (List String)
merge_items [] os next added new_idx original = some original
merge_items (x ∷ xs) [] next added new_idx original = none
merge_items (x ∷ xs) (none ∷ os) next added new_idx original =
    merge_items xs os (suc next) (suc added) new_idx (insert_at next x original)
merge_items (x ∷ xs) (some i ∷ os) next added [] original = none
merge_items (x ∷ xs) (some i ∷ os) next added (n ∷ new_idx) original =
    elim (set_at (n + added) x original) [
      | none ↦ none
      | some changed ↦ merge_items xs os (suc (n + added)) added new_idx changed
    ]

abbrev pub unique_of : Option (List String) → Option (List String)
unique_of none = none
unique_of (some xs) = some (unique xs)

unfoldable pub merge_order : List String → List String → Bool → Option (List String)
merge_order original [] prepend = some (unique original)
merge_order [] (x ∷ xs) prepend = some (unique (x ∷ xs))
merge_order (o ∷ os) (x ∷ []) prepend =
    some (unique (if prepend then x ∷ o ∷ os else (o ∷ os) ++ x ∷ []))
merge_order (o ∷ os) (x ∷ y ∷ xs) prepend =
    let update = x ∷ y ∷ xs in
    let old_idx = old_indices update (o ∷ os) in
    unique_of (merge_items update old_idx 0 0 (sort leb (present old_idx)) (o ∷ os))
