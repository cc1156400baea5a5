-- ===== src/Sql/Laws.antt =====
-- Laws of the queries: what a selected row satisfies, and how UPDATE and INSERT change a query.
use mathlib.Core.Option
use orchestra_threads.Prelude.{
  ◌≡◌, refl, inl, inr, Bool, true, false, ◌||◌, none, some, List, [], ◌∷◌, ◌++◌, arith,
  if◌then◌else◌, Bool-cases, All, is_some,
}
use orchestra_threads.Sql.{select, fetchrow, exists_row, update, insert_row, order_by, first_row}

module _ {ℓ} {A : Type ℓ} where
  pub fetchrow-true : (p : A → Bool) (xs : List A) {a : A} → fetchrow p xs ≡ some a → p a ≡ true
  unfolding fetchrow
  fetchrow-true p [] h = cc
  fetchrow-true p (x ∷ xs) h = elim (Bool-cases (p x)) [
    | inl e ↦ ground (arith, e)
    | inr e ↦ fetchrow-true p xs (ground (arith, e))
  ]

  pub exists_row-eq-is_some :
      (p : A → Bool) (xs : List A) → exists_row p xs ≡ is_some (fetchrow p xs)
  unfolding exists_row fetchrow
  exists_row-eq-is_some p [] = refl
  exists_row-eq-is_some p (x ∷ xs) = ground (arith, exists_row-eq-is_some p xs)

  pub select-append :
      (p : A → Bool) (xs ys : List A) → select p (xs ++ ys) ≡ select p xs ++ select p ys
  unfolding select
  select-append p [] ys = refl
  select-append p (x ∷ xs) ys = ground (arith, select-append p xs ys)

  pub fetchrow-append :
      (p : A → Bool) (xs : List A) (y : A)
      → fetchrow p (xs ++ y ∷ [])
        ≡ (if is_some (fetchrow p xs) then fetchrow p xs else if p y then some y else none)
  unfolding fetchrow
  fetchrow-append p [] y = ground arith
  fetchrow-append p (x ∷ xs) y = ground (arith, fetchrow-append p xs y)

  pub exists_row-append :
      (p : A → Bool) (xs : List A) (y : A) → exists_row p (xs ++ y ∷ []) ≡ (exists_row p xs || p y)
  unfolding exists_row
  exists_row-append p [] y = ground arith
  exists_row-append p (x ∷ xs) y = ground (arith, exists_row-append p xs y)

module _ {ℓ} {A : Type ℓ} where
  pub exists_row_or :
      (p q : A → Bool) (xs : List A)
      → exists_row (λ x. p x || q x) xs ≡ (exists_row p xs || exists_row q xs)
  unfolding exists_row
  exists_row_or p q [] = refl
  exists_row_or p q (x ∷ xs) = ground (arith, exists_row_or p q xs)

  -- A row that is found makes a weaker test true.
  pub exists_row_mono :
      (p q : A → Bool)
      → ((x : A) → p x ≡ true → q x ≡ true)
      → (xs : List A) → exists_row p xs ≡ true
      → exists_row q xs ≡ true
  unfolding exists_row
  exists_row_mono p q imp [] h = h
  exists_row_mono p q imp (x ∷ xs) h = ground (arith, imp x, exists_row_mono p q imp xs)

  -- No row is selected that is not there.
  pub select-eq-nil : (p : A → Bool) (xs : List A) → All (λ x. p x ≡ false) xs → select p xs ≡ []
  unfolding select
  select-eq-nil p [] h = refl
  select-eq-nil p (x ∷ xs) h = ground (arith, select-eq-nil p xs h.1)

  pub exists_row-All-false :
      (p : A → Bool) (xs : List A) → exists_row p xs ≡ false → All (λ x. p x ≡ false) xs
  unfolding exists_row
  exists_row-All-false p [] h = tt
  exists_row-All-false p (x ∷ xs) h = (ground arith, exists_row-All-false p xs (ground arith))

module _ {ℓ} {A : Type ℓ} (p q : A → Bool) (f : A → A) (keeps : (x : A) → p (f x) ≡ p x) where
  -- An UPDATE that leaves the key `p` reads alone.
  pub select-update : (xs : List A) → select p (update q f xs) ≡ update q f (select p xs)
  unfolding select update
  select-update [] = refl
  select-update (x ∷ xs) = ground (arith, select-update xs, keeps x)

  pub fetchrow-update :
      (xs : List A)
      → fetchrow p (update q f xs) ≡ Option.map (λ x. if q x then f x else x) (fetchrow p xs)
  unfolding fetchrow update
  fetchrow-update [] = refl
  fetchrow-update (x ∷ xs) = ground (arith, fetchrow-update xs, keeps x)

  pub exists_row-update : (xs : List A) → exists_row p (update q f xs) ≡ exists_row p xs
  unfolding exists_row update
  exists_row-update [] = refl
  exists_row-update (x ∷ xs) = ground (arith, exists_row-update xs, keeps x)

module _ {ℓ κ μ} {A : Type ℓ} (P : A → Type κ) (Q : A → Type μ) where
  -- What holds after an UPDATE: of the rows that it changes, and of the others.
  pub All-update_to :
      (p : A → Bool) (f : A → A)
      → ((x : A) → p x ≡ true → P x → Q (f x))
      → ((x : A) → p x ≡ false → P x → Q x)
      → (xs : List A) → All P xs
      → All Q (update p f xs)
  unfolding update
  All-update_to p f hit miss [] h = tt
  All-update_to p f hit miss (x ∷ xs) h = elim (Bool-cases (p x)) [
    | inl e ↦ rw e (hit x e h.0, All-update_to p f hit miss xs h.1)
    | inr e ↦ rw e (miss x e h.0, All-update_to p f hit miss xs h.1)
  ]

module _ {ℓ κ} {A : Type ℓ} (P : A → Type κ) where
  pub All-update :
      (p : A → Bool) (f : A → A)
      → ((x : A) → p x ≡ true → P x → P (f x))
      → (xs : List A) → All P xs
      → All P (update p f xs)
  unfolding update
  All-update p f step [] h = tt
  All-update p f step (x ∷ xs) h = elim (Bool-cases (p x)) [
    | inl e ↦ rw e (step x e h.0, All-update p f step xs h.1)
    | inr e ↦ rw e (h.0, All-update p f step xs h.1)
  ]

  pub All-select : (p : A → Bool) (xs : List A) → All P xs → All P (select p xs)
  unfolding select
  All-select p [] h = tt
  All-select p (x ∷ xs) h = elim (Bool-cases (p x)) [
    | inl e ↦ rw e (h.0, All-select p xs h.1)
    | inr e ↦ rw e (All-select p xs h.1)
  ]

  -- What WHERE tests holds of the rows that it gives.
  pub All-select-true :
      (p : A → Bool) → ((x : A) → p x ≡ true → P x) → (xs : List A) → All P (select p xs)
  unfolding select
  All-select-true p holds [] = tt
  All-select-true p holds (x ∷ xs) = elim (Bool-cases (p x)) [
    | inl e ↦ rw e (holds x e, All-select-true p holds xs)
    | inr e ↦ rw e (All-select-true p holds xs)
  ]

  pub All-fetchrow : (p : A → Bool) (xs : List A) {a : A} → All P xs → fetchrow p xs ≡ some a → P a
  unfolding fetchrow
  All-fetchrow p [] h e = absurd (cc)
  All-fetchrow p (x ∷ xs) h e = elim (Bool-cases (p x)) [
    | inl t ↦ subst' (ground (arith, t)) h.0
    | inr t ↦ All-fetchrow p xs h.1 (ground (arith, t))
  ]
    where
      subst' : {a b : A} → a ≡ b → P a → P b
      subst' q u = rw (← q) u

  All-insert_row :
      (before : A → A → Bool) (x : A) (ys : List A)
      → P x
      → All P ys
      → All P (insert_row before x ys)
  unfolding insert_row
  All-insert_row before x [] h k = (h, tt)
  All-insert_row before x (y ∷ ys) h k = elim (Bool-cases (before x y)) [
    | inl e ↦ rw e (h, k)
    | inr e ↦ rw e (k.0, All-insert_row before x ys h k.1)
  ]

  pub All-order_by : (before : A → A → Bool) (xs : List A) → All P xs → All P (order_by before xs)
  unfolding order_by
  All-order_by before [] h = tt
  All-order_by before (x ∷ xs) h =
      All-insert_row before x (order_by before xs) h.0 (All-order_by before xs h.1)

  pub All-first_row : (xs : List A) {a : A} → All P xs → first_row xs ≡ some a → P a
  unfolding first_row
  All-first_row [] h e = absurd (cc)
  All-first_row (x ∷ xs) h e = rw (← Option.some_inj.0 e) h.0
