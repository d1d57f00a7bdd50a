-- ===== src/Helper/Values.antt =====
-- helper/genutil.py: lists without repetitions, merged dictionaries, and values that exclude each other.
use Prim.Native.Char.{code}
use fluvius_py.Common.{
  ◌||◌, leb, ◌==◌, ℕ, suc, ◌≡◌, refl, ◌∙◌, ap, inl, inr, String, Bool, true, false, not, ◌&&◌,
  Option, none, some, List, [], ◌∷◌, str_eq, eq_iff, eq_refl, any, if◌then◌else◌, arith, Bool-cases,
}
use fluvius_py.Common.Dict.{Dict, update}
use fluvius_py.Helper.Registry.{RegistryError, Outcome, returned, failed}

abbrev pub member : String → List String → Bool
member x xs = any (str_eq x) xs

-- `index_of`, with none for -1
unfoldable pub index_of : String → List String → Option ℕ
index_of x [] = none
index_of x (y ∷ ys) =
    let later = index_of x ys in
    if str_eq x y then some 0 else elim later [ none ↦ none | some n ↦ some (suc n) ]

-- `unique`, with the items that were seen
unfoldable pub unique_from : List String → List String → List String
unique_from seen [] = []
unique_from seen (x ∷ xs) =
    let skipped = unique_from seen xs in
    let kept = unique_from (x ∷ seen) xs in if member x seen then skipped else x ∷ kept

unfoldable pub unique : List String → List String
unique xs = unique_from [] xs

-- `dcopy`: each dictionary over those before it; None and an empty one add nothing
unfoldable pub dcopy : {A : Type 0} → List (Option (Dict A)) → Dict A → Dict A
dcopy [] found = found
dcopy (none ∷ rest) found = dcopy rest found
dcopy (some d ∷ rest) found = dcopy rest (update found d)

-- `select_value`, with no default for `VALUE_REQUIRED`
unfoldable pub select_value :
    {A : Type 0} → Option A → Option A → Option (Option A) → Outcome (Option A)
select_value (some u) (some c) default = failed (RegistryError.bad_request "H00.201")
select_value (some u) none default = returned (some u)
select_value none (some c) default = returned (some c)
select_value none none none = failed (RegistryError.bad_request "H00.202")
select_value none none (some d) = returned d

abbrev pub distinct : List String → Bool
distinct [] = true
distinct (x ∷ xs) = not (member x xs) && distinct xs

member-unique_from :
    (y : String) (seen xs : List String)
    → member y (unique_from seen xs) ≡ (member y xs && not (member y seen))
unfolding unique_from
member-unique_from y seen [] = refl
member-unique_from y seen (x ∷ xs) =
    let ih = member-unique_from y seen xs in
    let ih' = member-unique_from y (x ∷ seen) xs in
    elim (Bool-cases (member x seen)) [
      | inl known ↦ elim (Bool-cases (str_eq y x)) [
        | inl e ↦
            let same : member y seen ≡ true = ap (λ z. member z seen) ((eq_iff y x).0 e) ∙ known in
            rw (known, e) (ground (arith, ih, same))
        | inr e ↦ rw (known, e) ih
      ]
      | inr new ↦ elim (Bool-cases (str_eq y x)) [
        | inl e ↦
            let same : member y seen ≡ false = ap (λ z. member z seen) ((eq_iff y x).0 e) ∙ new in
            rw (new, e, same) refl
        | inr e ↦ rw (new, e) (rw e at ih')
      ]
    ]

distinct-unique_from : (seen xs : List String) → distinct (unique_from seen xs) ≡ true
unfolding unique_from
distinct-unique_from seen [] = refl
distinct-unique_from seen (x ∷ xs) =
    let ih = distinct-unique_from seen xs in
    let ih' = distinct-unique_from (x ∷ seen) xs in
    let out = member-unique_from x (x ∷ seen) xs in
    elim (Bool-cases (member x seen)) [
      | inl known ↦ rw known ih
      | inr new ↦ rw new (ground (arith, ih', out, eq_refl x))
    ]

-- `unique` leaves no item twice, and keeps exactly the items of the sequence.
pub unique_lem :
    (xs : List String)
    → (distinct (unique xs) ≡ true) × ((y : String) → member y (unique xs) ≡ member y xs)
unfolding unique
unique_lem xs = (distinct-unique_from [] xs, λ y. ground (arith, member-unique_from y [] xs))

-- `RX_LOWERCASE_DASH`; `\d` also takes the decimal digits of other scripts, which `other_digit` tells.
module _ (other_digit : ℕ → Bool) where
  abbrev pub is_lower : ℕ → Bool
  is_lower n = leb 97 n && leb n 122

  abbrev pub ends_name : ℕ → Bool
  ends_name n = is_lower n || (leb 48 n && leb n 57) || (leb 128 n && other_digit n)

  abbrev pub within_name : ℕ → Bool
  within_name n = ends_name n || n == 95 || n == 45

  -- `$`: the end, or one newline before it
  abbrev pub at_end : String → Bool
  at_end String.[] = true
  at_end (String.◌∷◌ c String.[]) = code c == 10
  at_end (String.◌∷◌ c (String.◌∷◌ d s)) = false

  abbrev pub matches_end : String → Bool
  matches_end String.[] = false
  matches_end (String.◌∷◌ c s) =
      (ends_name (code c) && at_end s) || (within_name (code c) && matches_end s)

  abbrev pub matches_name : String → Bool
  matches_name String.[] = false
  matches_name (String.◌∷◌ c s) = is_lower (code c) && matches_end s

  unfoldable pub validate_lower_dash : String → Outcome String
  validate_lower_dash value =
      if matches_name value then returned value else failed (RegistryError.bad_request "H00.101")
