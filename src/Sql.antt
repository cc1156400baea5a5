-- ===== src/Sql.antt =====
-- A table as the list of its rows in insertion order, and what the statements of the store do to
-- it: WHERE, UPDATE, COUNT, ORDER BY and LIMIT. Where SQL leaves the order of rows open (no ORDER BY,
-- or equal keys), rows come in insertion order.
pub mod Laws
pub mod Ordering
pub mod Sorting
use orchestra_threads.Prelude.{
  ℕ, Bool, true, false, ◌||◌, Option, none, some, List, [], ◌∷◌, if◌then◌else◌,
}

module _ {ℓ} {A : Type ℓ} where
  -- SELECT * FROM table WHERE p
  unfoldable pub select : (A → Bool) → List A → List A
  select p [] = []
  select p (x ∷ xs) = let rest = select p xs in if p x then x ∷ rest else rest

  -- The row that `fetchrow` reads of such a query: the first one.
  unfoldable pub fetchrow : (A → Bool) → List A → Option A
  fetchrow p [] = none
  fetchrow p (x ∷ xs) = let rest = fetchrow p xs in if p x then some x else rest

  -- A unique key or index is hit.
  unfoldable pub exists_row : (A → Bool) → List A → Bool
  exists_row p [] = false
  exists_row p (x ∷ xs) = p x || exists_row p xs

  -- UPDATE table SET f WHERE p
  unfoldable pub update : (A → Bool) → (A → A) → List A → List A
  update p f [] = []
  update p f (x ∷ xs) = (if p x then f x else x) ∷ update p f xs

  -- `before x y`: x may stand in front of y. A stable insertion sort.
  unfoldable pub insert_row : (A → A → Bool) → A → List A → List A
  insert_row before x [] = x ∷ []
  insert_row before x (y ∷ ys) =
      let rest = insert_row before x ys in if before x y then x ∷ y ∷ ys else y ∷ rest

  -- ORDER BY
  unfoldable pub order_by : (A → A → Bool) → List A → List A
  unfolding insert_row
  order_by before [] = []
  order_by before (x ∷ xs) = insert_row before x (order_by before xs)

  -- LIMIT 1
  unfoldable pub first_row : List A → Option A
  first_row [] = none
  first_row (x ∷ xs) = some x
