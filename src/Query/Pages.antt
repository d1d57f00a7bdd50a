-- ===== src/Query/Pages.antt =====
-- The rows that the pages of a query show.
use fluvius_py.Common.{
  ℕ, zero, suc, true, false, ◌+◌, ◌*◌, ◌≤◌, ◌<◌, ◌≡◌, refl, ap, ltb, Bool-cases, inl, inr, arith,
}
use fluvius_py.Common.Int.{pos}
use fluvius_py.Query.Manager.{offset_of}

-- The query of page `page` with a limit shows the row with index `i`.
abbrev pub Shows : ℕ → ℕ → ℕ → Type 0
Shows limit page i =
    (offset : ℕ) × (offset_of (pos page) (pos limit) ≡ pos offset)
    × (offset ≤ i)
    × (i < offset + limit)

pos_inj : {a b : ℕ} → pos a ≡ pos b → a ≡ b
pos_inj h = cc h

mul_le : (p q l : ℕ) → p < q → p * l + l ≤ q * l
mul_le p zero l h = absurd (omega (arith, h))
mul_le zero (suc q) l h = omega arith
mul_le (suc p) (suc q) l h = let ih = mul_le p q l (omega (arith, h)) in omega (arith, ih)

unique_page : (l i p q : ℕ) → p * l ≤ i → i < p * l + l → q * l ≤ i → i < q * l + l → p ≡ q
unique_page l i p q a b c d = ground (arith, mul_le p q l, mul_le q p l)

ltb-true : (a b : ℕ) → ltb a b ≡ true → a < b
ltb-true a b h = ground arith

ltb-false : (a b : ℕ) → ltb a b ≡ false → b ≤ a
ltb-false a b h = ground arith

some_page : (l i : ℕ) → 0 < l → (p : ℕ) × (p * l ≤ i) × (i < p * l + l)
some_page l zero h = (0, omega arith, omega arith)
some_page l (suc i) h =
    let (p, from, to) = some_page l i h in
    elim (Bool-cases (ltb (suc i) (p * l + l))) [
      | inl same ↦ (p, omega (arith, from), ltb-true (suc i) (p * l + l) same)
      | inr next ↦ (suc p, omega (arith, ltb-false (suc i) (p * l + l) next), omega (arith, to, h))
    ]

-- With a positive limit, every row is on exactly one of the pages from 1 on.
pub pages-cover :
    (limit i : ℕ)
    → 0 < limit
    → (page : ℕ) × (1 ≤ page)
      × Shows limit page i
      × ((other : ℕ) → 1 ≤ other → Shows limit other i → other ≡ page)
pages-cover limit i positive =
    let (p, from, to) = some_page limit i positive in
    (
      suc p,
      omega arith,
      (p * limit, refl, from, to),
      λ other first shown. only p from to other first shown,
    )
  where
    only :
        (p : ℕ)
        → p * limit ≤ i
        → i < p * limit + limit
        → (other : ℕ) → 1 ≤ other
        → Shows limit other i
        → other ≡ suc p
    only p from to zero first shown = absurd (omega (arith, first))
    only p from to (suc q) first (offset, same, low, high) =
        let at = pos_inj same in
        ap suc (unique_page limit i q p (omega (arith, at, low)) (omega (arith, at, high)) from to)
