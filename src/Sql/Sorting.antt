-- ===== src/Sql/Sorting.antt =====
-- ORDER BY gives all rows of a table, in an order; LIMIT gives the first of them.
use orchestra_threads.Prelude.{
  ℕ, zero, suc, ◌≡◌, refl, ap, Bool, true, false, List, [], ◌∷◌, ◌++◌, inl, inr, ◌⊎◌, Bool-cases,
  All, All-map, take,
}
use orchestra_threads.Sql.{select, order_by, insert_row}

-- `x` is an item of the list.
abbrev pub Among : {A : Type 0} → A → List A → Type 0
Among x [] = ⊥
Among x (y ∷ ys) = (x ≡ y) ⊎ Among x ys

-- Every item stands in the relation `R` to all items after it.
abbrev pub Sorted : {A : Type 0} → (A → A → Type 0) → List A → Type 0
Sorted R [] = Unit
Sorted R (x ∷ xs) = All (R x) xs × Sorted R xs

module _ {A : Type 0} where
  pub All-Among : (xs : List A) → All (λ x. Among x xs) xs
  All-Among [] = tt
  All-Among (x ∷ xs) = (inl refl, All-map _ _ xs (λ y h. inr h) (All-Among xs))

  pub Among-select :
      (p : A → Bool) (x : A) (xs : List A) → p x ≡ true → Among x xs → Among x (select p xs)
  unfolding select
  Among-select p x [] h k = elim k [ ]
  Among-select p x (y ∷ ys) h k = elim (Bool-cases (p y)) [
    | inl e ↦ rw e (elim k [ inl same ↦ inl same | inr more ↦ inr (Among-select p x ys h more) ])
    | inr e ↦ rw e (elim k [
      | inl same ↦ absurd (cc (h, e, ap p same))
      | inr more ↦ Among-select p x ys h more
    ])
  ]

  Among-insert_row :
      (before : A → A → Bool) (x y : A) (ys : List A)
      → Among x (y ∷ ys)
      → Among x (insert_row before y ys)
  unfolding insert_row
  Among-insert_row before x y [] h = h
  Among-insert_row before x y (z ∷ zs) h = elim (Bool-cases (before y z)) [
    | inl e ↦ rw e h
    | inr e ↦ rw e (elim h [
      | inl same ↦ inr (Among-insert_row before x y zs (inl same))
      | inr (inl same) ↦ inl same
      | inr (inr more) ↦ inr (Among-insert_row before x y zs (inr more))
    ])
  ]

  pub Among-order_by :
      (before : A → A → Bool) (x : A) (xs : List A) → Among x xs → Among x (order_by before xs)
  unfolding order_by
  Among-order_by before x [] h = elim h [ ]
  Among-order_by before x (y ∷ ys) (inl e) =
      Among-insert_row before x y (order_by before ys) (inl e)
  Among-order_by before x (y ∷ ys) (inr h) =
      Among-insert_row before x y (order_by before ys) (inr (Among-order_by before x ys h))

  -- What LIMIT leaves out.
  pub take-rest : (n : ℕ) (xs : List A) → (rest : List A) × (xs ≡ take n xs ++ rest)
  take-rest zero xs = (xs, refl)
  take-rest (suc n) [] = ([], refl)
  take-rest (suc n) (x ∷ xs) = let (rest, e) = take-rest n xs in (rest, ap (λ ys. x ∷ ys) e)

module _ {A : Type 0} (before : A → A → Bool) (R : A → A → Type 0)
    (holds : (x y : A) → before x y ≡ true → R x y)
    (turned : (x y : A) → before x y ≡ false → R y x)
    (through : (x y z : A) → R x y → R y z → R x z) where
  All-insert : (x y : A) (ys : List A) → R x y → All (R x) ys → All (R x) (insert_row before y ys)
  unfolding insert_row
  All-insert x y [] r h = (r, tt)
  All-insert x y (z ∷ zs) r h = elim (Bool-cases (before y z)) [
    | inl e ↦ rw e (r, h)
    | inr e ↦ rw e (h.0, All-insert x y zs r h.1)
  ]

  Sorted-insert_row : (x : A) (ys : List A) → Sorted R ys → Sorted R (insert_row before x ys)
  unfolding insert_row
  Sorted-insert_row x [] h = (tt, tt)
  Sorted-insert_row x (y ∷ ys) h = elim (Bool-cases (before x y)) [
    | inl e ↦
        let r = holds x y e in rw e ((r, All-map (R y) (R x) ys (λ z k. through x y z r k) h.0), h)
    | inr e ↦ rw e (All-insert y x ys (turned x y e) h.0, Sorted-insert_row x ys h.1)
  ]

  pub Sorted-order_by : (xs : List A) → Sorted R (order_by before xs)
  unfolding order_by
  Sorted-order_by [] = tt
  Sorted-order_by (x ∷ xs) = Sorted-insert_row x (order_by before xs) (Sorted-order_by xs)
