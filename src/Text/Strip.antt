-- ===== src/Text/Strip.antt =====
-- `strip` is idempotent, so that a value that was stripped on the way in is not changed by the
-- `strip` on the way out.
use orchestra_threads.Prelude.{
  ℕ, ◌≡◌, refl, ap, ◌∙◌, Bool, false, [], ◌∷◌, arith, inl, inr, Bool-cases,
}
use orchestra_threads.Text.{Text, is_space, lstrip_by, rstrip_by, strip}

module _ (drop : ℕ → Bool) where
  -- The first character, if there is one, is kept by `lstrip_by`.
  abbrev Leads : Text → Type 0
  Leads [] = Unit
  Leads (c ∷ s) = drop c ≡ false

  lstrip-Leads : (s : Text) → Leads (lstrip_by drop s)
  unfolding lstrip_by
  lstrip-Leads [] = tt
  lstrip-Leads (c ∷ s) = elim (Bool-cases (drop c)) [
    | inl e ↦ rw e (lstrip-Leads s)
    | inr e ↦ rw e e
  ]

  lstrip_of_Leads : (s : Text) → Leads s → lstrip_by drop s ≡ s
  unfolding lstrip_by
  lstrip_of_Leads [] h = refl
  lstrip_of_Leads (c ∷ s) h = rw h

  rstrip-Leads : (s : Text) → Leads s → Leads (rstrip_by drop s)
  unfolding rstrip_by
  rstrip-Leads [] h = tt
  rstrip-Leads (c ∷ s) h = rw h h

  rstrip-rstrip : (s : Text) → rstrip_by drop (rstrip_by drop s) ≡ rstrip_by drop s
  unfolding rstrip_by
  rstrip-rstrip [] = refl
  rstrip-rstrip (c ∷ s) = ground (arith, rstrip-rstrip s)

-- Stripping twice is stripping once.
pub strip-strip : (s : Text) → strip (strip s) ≡ strip s
unfolding strip
strip-strip s =
    ap (rstrip_by is_space)
      (lstrip_of_Leads is_space _ (rstrip-Leads is_space _ (lstrip-Leads is_space s)))
    ∙ rstrip-rstrip is_space (lstrip_by is_space s)
