-- ===== src/Helper/Merging.antt =====
-- merge_order always gives a list.
use fluvius_py.Common.{
  ℕ, zero, suc, ◌+◌, ◌<◌, ◌≡◌, refl, sym, ◌∙◌, ap, subst, leb, String, Bool, true, inl, inr,
  Bool-cases, Option, none, some, List, [], ◌∷◌, length, str_eq, arith,
}
use fluvius_py.Common.Sorting.{sort, insert}
use fluvius_py.Helper.Values.{index_of, unique, distinct, unique_lem}
use fluvius_py.Helper.Merge.{
  insert_at, set_at, old_indices, present, merge_items, unique_of, merge_order,
}

length-insert_at :
    (n : ℕ) (x : String) (xs : List String) → length (insert_at n x xs) ≡ suc (length xs)
unfolding insert_at
length-insert_at zero x xs = refl
length-insert_at (suc n) x [] = refl
length-insert_at (suc n) x (y ∷ ys) = ap suc (length-insert_at n x ys)

set_at_ok :
    (n : ℕ) (x : String) (xs : List String)
    → n < length xs
    → (ys : List String) × (set_at n x xs ≡ some ys) × (length ys ≡ length xs)
unfolding set_at
set_at_ok n x [] h = absurd (omega (arith, h))
set_at_ok zero x (y ∷ ys) h = (x ∷ ys, refl, refl)
set_at_ok (suc n) x (y ∷ ys) h =
    let (zs, done, same) = set_at_ok n x ys (omega (arith, h)) in
    (y ∷ zs, rw done refl, ap suc same)

-- All these places, moved by `added`, are in a list of this length.
abbrev Within : ℕ → ℕ → List ℕ → Type 0
Within added size [] = Unit
Within added size (n ∷ ns) = (n + added < size) × Within added size ns

Within-suc :
    (added size : ℕ) (ns : List ℕ) → Within added size ns → Within (suc added) (suc size) ns
Within-suc added size [] h = tt
Within-suc added size (n ∷ ns) (h, hs) = (omega (arith, h), Within-suc added size ns hs)

merge_items-total :
    (xs : List String) (os : List (Option ℕ)) (next added : ℕ) (new_idx : List ℕ)
    (original : List String)
    → length os ≡ length xs
    → length (present os) ≡ length new_idx
    → Within added (length original) new_idx
    → (ys : List String) × (merge_items xs os next added new_idx original ≡ some ys)
unfolding merge_items
merge_items-total [] os next added new_idx original e k h = (original, refl)
merge_items-total (x ∷ xs) [] next added new_idx original e k h = absurd (omega (arith, e))
merge_items-total (x ∷ xs) (none ∷ os) next added new_idx original e k h =
    merge_items-total xs os (suc next) (suc added) new_idx (insert_at next x original)
      (omega (arith, e)) k
      (subst (λ size. Within (suc added) size new_idx) (sym (length-insert_at next x original))
        (Within-suc added (length original) new_idx h))
merge_items-total (x ∷ xs) (some i ∷ os) next added [] original e k h = absurd (omega (arith, k))
merge_items-total (x ∷ xs) (some i ∷ os) next added (n ∷ new_idx) original e k (h, hs) =
    let (changed, set, same) = set_at_ok (n + added) x original h in
    let (ys, done) =
      merge_items-total xs os (suc (n + added)) added new_idx changed (omega (arith, e))
        (omega (arith, k)) (subst (λ size. Within added size new_idx) (sym same) hs) in
    (ys, rw (merge_items, set) done)

some_inj : {a b : ℕ} → some a ≡ some b → a ≡ b
some_inj h = cc h

by_later :
    (o : Option ℕ) {n size : ℕ}
    → ((m : ℕ) → o ≡ some m → m < size)
    → (elim o [ none ↦ none | some m ↦ some (suc m) ]) ≡ some n
    → n < suc size
by_later none h e = absurd (cc e)
by_later (some m) {n} {size} h e =
    subst (λ k. k < suc size) (some_inj e) (let low = h m refl in omega (arith, low))

index_of-bound : (x : String) (xs : List String) {n : ℕ} → index_of x xs ≡ some n → n < length xs
unfolding index_of
index_of-bound x [] h = absurd (cc h)
index_of-bound x (y ∷ ys) {n} h = elim (Bool-cases (str_eq x y)) [
  | inl here ↦ subst (λ m. m < suc (length ys)) (some_inj (rw here at h)) (omega arith)
  | inr there ↦ by_later (index_of x ys) (λ m e. index_of-bound x ys e) (rw there at h)
]

length-old_indices : (xs original : List String) → length (old_indices xs original) ≡ length xs
length-old_indices [] original = refl
length-old_indices (x ∷ xs) original = ap suc (length-old_indices xs original)

insert-Within :
    (n size : ℕ) (ns : List ℕ) → n + 0 < size → Within 0 size ns → Within 0 size (insert leb n ns)
unfolding insert
insert-Within n size [] h k = (h, tt)
insert-Within n size (m ∷ ms) h (k, ks) = elim (Bool-cases (leb n m)) [
  | inl first ↦ rw first (h, (k, ks))
  | inr later ↦ rw later (k, insert-Within n size ms h ks)
]

length-insert : (n : ℕ) (ns : List ℕ) → length (insert leb n ns) ≡ suc (length ns)
unfolding insert
length-insert n [] = refl
length-insert n (m ∷ ms) = elim (Bool-cases (leb n m)) [
  | inl first ↦ rw first refl
  | inr later ↦ rw later (ap suc (length-insert n ms))
]

sort-Within : (size : ℕ) (ns : List ℕ) → Within 0 size ns → Within 0 size (sort leb ns)
unfolding sort
sort-Within size [] h = tt
sort-Within size (n ∷ ns) (h, hs) = insert-Within n size (sort leb ns) h (sort-Within size ns hs)

length-sort : (ns : List ℕ) → length (sort leb ns) ≡ length ns
unfolding sort
length-sort [] = refl
length-sort (n ∷ ns) = length-insert n (sort leb ns) ∙ ap suc (length-sort ns)

present-Within :
    (xs original : List String) → Within 0 (length original) (present (old_indices xs original))
present-Within [] original = tt
present-Within (x ∷ xs) original =
    by_index (index_of x original) (λ m e. index_of-bound x original e) (present-Within xs original)
  where
    by_index :
        (o : Option ℕ)
        → ((m : ℕ) → o ≡ some m → m < length original)
        → Within 0 (length original) (present (old_indices xs original))
        → Within 0 (length original) (present (o ∷ old_indices xs original))
    by_index none h rest = rest
    by_index (some m) h rest = (let low = h m refl in omega (arith, low), rest)

-- `merge_order` gives a list, with no IndexError, and no item of the list is there twice.
pub merge_order-total :
    (original update : List String) (prepend : Bool)
    → (merged : List String) × (merge_order original update prepend ≡ some merged)
      × (distinct merged ≡ true)
unfolding merge_order
merge_order-total original [] prepend = (unique original, refl, (unique_lem original).0)
merge_order-total [] (x ∷ xs) prepend = (unique (x ∷ xs), refl, (unique_lem (x ∷ xs)).0)
merge_order-total (o ∷ os) (x ∷ []) prepend = (_, refl, (unique_lem _).0)
merge_order-total (o ∷ os) (x ∷ y ∷ xs) prepend =
    let update = x ∷ y ∷ xs in
    let old_idx = old_indices update (o ∷ os) in
    let (ys, done) =
      merge_items-total update old_idx 0 0 (sort leb (present old_idx)) (o ∷ os)
        (length-old_indices update (o ∷ os)) (sym (length-sort (present old_idx)))
        (sort-Within (length (o ∷ os)) (present old_idx) (present-Within update (o ∷ os))) in
    (unique ys, ap unique_of done, (unique_lem ys).0)
