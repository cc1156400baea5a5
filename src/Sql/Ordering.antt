-- ===== src/Sql/Ordering.antt =====
-- ORDER BY and LIMIT: the rows of an ordered table are those of the table.
use orchestra_threads.Prelude.{
  ℕ, zero, suc, ◌≤◌, ◌≡◌, refl, ap, Bool, true, false, List, [], ◌∷◌, inl, inr, Bool-cases, arith,
  All, length, take,
}
use orchestra_threads.Sql.{select, order_by, insert_row}

module _ {A : Type 0} (P : A → Type 0) where
  -- Rows that a test takes, and the ones that it leaves.
  pub All-of-select :
      (p : A → Bool)
      → ((x : A) → p x ≡ false → P x)
      → (xs : List A) → All P (select p xs)
      → All P xs
  unfolding select
  All-of-select p miss [] h = tt
  All-of-select p miss (x ∷ xs) h = elim (Bool-cases (p x)) [
    | inl e ↦ let k = rw e at h in (k.0, All-of-select p miss xs k.1)
    | inr e ↦ (miss x e, All-of-select p miss xs (rw e at h))
  ]

  pub All-of-insert_row :
      (before : A → A → Bool) (x : A) (ys : List A)
      → All P (insert_row before x ys)
      → P x × All P ys
  unfolding insert_row
  All-of-insert_row before x [] h = h
  All-of-insert_row before x (y ∷ ys) h = elim (Bool-cases (before x y)) [
    | inl e ↦ rw e at h
    | inr e ↦
        let k = rw e at h in let (px, pys) = All-of-insert_row before x ys k.1 in (px, (k.0, pys))
  ]

  pub All-of-order_by :
      (before : A → A → Bool) (xs : List A) → All P (order_by before xs) → All P xs
  unfolding order_by
  All-of-order_by before [] h = tt
  All-of-order_by before (x ∷ xs) h =
      let (px, rest) = All-of-insert_row before x (order_by before xs) h in
      (px, All-of-order_by before xs rest)

module _ {A : Type 0} where
  pub take-all : (n : ℕ) (xs : List A) → length xs ≤ n → take n xs ≡ xs
  take-all zero [] h = refl
  take-all zero (x ∷ xs) h = absurd (omega arith)
  take-all (suc n) [] h = refl
  take-all (suc n) (x ∷ xs) h = ap (λ ys. x ∷ ys) (take-all n xs (omega arith))

  pub length-insert_row :
      (before : A → A → Bool) (x : A) (ys : List A)
      → length (insert_row before x ys) ≡ suc (length ys)
  unfolding insert_row
  length-insert_row before x [] = refl
  length-insert_row before x (y ∷ ys) = ground (arith, length-insert_row before x ys)

  pub length-order_by :
      (before : A → A → Bool) (xs : List A) → length (order_by before xs) ≡ length xs
  unfolding order_by
  length-order_by before [] = refl
  length-order_by before (x ∷ xs) =
      omega (arith, length-insert_row before x (order_by before xs), length-order_by before xs)

-- A row that may stand before all others is put first.
pub insert-first :
    {A : Type 0} (before : A → A → Bool) (x : A) (ys : List A)
    → All (λ y. before x y ≡ true) ys
    → insert_row before x ys ≡ x ∷ ys
unfolding insert_row
insert-first before x [] h = refl
insert-first before x (y ∷ ys) h = rw (h.0, insert_row) refl
