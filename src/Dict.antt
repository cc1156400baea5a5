-- ===== src/Dict.antt =====
-- Python's `dict` with text keys, as the list of its items in insertion order. `put` replaces the
-- value of a key in place, or appends a new key.
use orchestra_threads.Prelude.{
  ◌≡◌, refl, ap, sym, ◌∙◌, true, false, Option, none, some, List, [], ◌∷◌, arith, inl, inr, ◌⊎◌,
  Bool-cases, if◌then◌else◌,
}
use mathlib.Core.Option
use orchestra_threads.Text.{Text, ◌==◌, eq_refl, eq→path}

abbrev pub Dict : Type 0 → Type 0
Dict A = List (Text × A)

-- Keys that differ are not both the key that is looked for.
apart : (i j k : Text) → (i == j) ≡ false → (i == k) ≡ true → (j == k) ≡ false
apart i j k e h = elim (Bool-cases (j == k)) [
  | inl l ↦ absurd (
      ground (
        arith,
        eq_refl k,
        ap (λ (t : Text). t == j) (eq→path i k h),
        ap (λ (t : Text). k == t) (eq→path j k l),
      ))
  | inr l ↦ l
]

module _ {A : Type 0} where
  -- `d.get(key)`
  unfoldable pub get : Text → Dict A → Option A
  get k [] = none
  get k ((j, a) ∷ d) = let rest = get k d in if j == k then some a else rest

  -- `d[key] = value`
  unfoldable pub put : Text → A → Dict A → Dict A
  put k a [] = (k, a) ∷ []
  put k a ((j, b) ∷ d) = let rest = put k a d in if j == k then (j, a) ∷ d else (j, b) ∷ rest

  -- `d.pop(key, None)`; no key stands twice in a `dict`
  unfoldable pub pop : Text → Dict A → Dict A
  pop k [] = []
  pop k ((j, b) ∷ d) = let rest = pop k d in if j == k then rest else (j, b) ∷ rest

  -- What is read after a write.
  pub get-put :
      (k j : Text) (a : A) (d : Dict A) → get k (put j a d) ≡ (if j == k then some a else get k d)
  unfolding get put
  get-put k j a [] = refl
  get-put k j a ((i, b) ∷ d) = elim (Bool-cases (i == j)) [
    | inl e ↦ rw (e, put) (rw (eq→path i j e) (ground arith))
    | inr e ↦ rw (e, put) (ground (arith, get-put k j a d, apart i j k e))
  ]

  pub get-pop : (k j : Text) (d : Dict A) → get k (pop j d) ≡ (if j == k then none else get k d)
  unfolding get pop
  get-pop k j [] = ground arith
  get-pop k j ((i, b) ∷ d) = elim (Bool-cases (i == j)) [
    | inl e ↦ rw (e, pop) (rw (eq→path i j e, get-pop k j d) (ground arith))
    | inr e ↦ rw (e, pop) (ground (arith, get-pop k j d, apart i j k e))
  ]

  pub get-put-same : (k : Text) (a : A) (d : Dict A) → get k (put k a d) ≡ some a
  get-put-same k a d = rw (get-put k k a d, eq_refl k) refl

  pub get-put-other :
      (k j : Text) (a : A) (d : Dict A) → (j == k) ≡ false → get k (put j a d) ≡ get k d
  get-put-other k j a d e = rw (get-put k j a d, e) refl

  -- What is read after a write is the value written, or it was there.
  pub put-cases :
      (k j : Text) (a b : A) (d : Dict A)
      → get k (put j a d) ≡ some b
      → ((j ≡ k) × (b ≡ a)) ⊎ (((j == k) ≡ false) × (get k d ≡ some b))
  put-cases k j a b d h = elim (Bool-cases (j == k)) [
    | inl e ↦ inl (eq→path j k e, Option.some_inj.0 (sym h ∙ (get-put k j a d ∙ rw e refl)))
    | inr e ↦ inr (e, sym (get-put-other k j a d e) ∙ h)
  ]

  pub pop-cases :
      (k j : Text) (b : A) (d : Dict A)
      → get k (pop j d) ≡ some b
      → ((j == k) ≡ false) × (get k d ≡ some b)
  pop-cases k j b d h = elim (Bool-cases (j == k)) [
    | inl e ↦ absurd (cc (rw (get-pop k j d, e) at h))
    | inr e ↦ (e, rw (get-pop k j d, e) at h)
  ]

  pub get-pop-other : (k j : Text) (d : Dict A) → (j == k) ≡ false → get k (pop j d) ≡ get k d
  get-pop-other k j d e = rw (get-pop k j d, e) refl

pub differ : (j k : Text) → (j ≡ k → ⊥) → (j == k) ≡ false
differ j k h = elim (Bool-cases (j == k)) [ inl e ↦ absurd (h (eq→path j k e)) | inr e ↦ e ]
