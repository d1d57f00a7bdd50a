-- ===== src/Data/Filled.antt =====
-- Expressions whose groups have parts.
use fluvius_py.Common.{◌≡◌, refl, Bool, true, false, ◌&&◌, ◌||◌, List, [], ◌∷◌, ◌++◌}
use fluvius_py.Query.Statements.{Value, Items, is_named}

-- The value has an expression, in lists too.
unfoldable mutual
  pub has_expressions : Value → Bool
  has_expressions (Value.query_expression name operator mode value) = true
  has_expressions (Value.list items) = have_expressions items
  has_expressions Value.null = false
  has_expressions (Value.flag b) = false
  has_expressions (Value.number n) = false
  has_expressions (Value.text s) = false
  has_expressions (Value.object _) = false

  pub have_expressions : Items → Bool
  have_expressions Items.no_items = false
  have_expressions (Items.item v items) = has_expressions v || have_expressions items

-- Every group in it has an expression.
unfoldable mutual
  pub filled : Value → Bool
  filled (Value.query_expression name operator mode value) =
      is_named name || (has_expressions value && filled value)
  filled (Value.list items) = all_filled items
  filled Value.null = true
  filled (Value.flag b) = true
  filled (Value.number n) = true
  filled (Value.text s) = true
  filled (Value.object _) = true

  pub all_filled : Items → Bool
  all_filled Items.no_items = true
  all_filled (Items.item v items) = filled v && all_filled items

pub and_parts : (a b : Bool) → (a && b) ≡ true → (a ≡ true) × (b ≡ true)
and_parts true b h = (refl, h)
and_parts false b h = absurd (cc h)

pub append_unless_empty {ℓ} :
    {A : Type ℓ} (xs ys : List A) → (xs ++ ys) ≡ [] → (xs ≡ []) × (ys ≡ [])
append_unless_empty [] ys h = (refl, h)
append_unless_empty (x ∷ xs) ys h = absurd (cc h)
