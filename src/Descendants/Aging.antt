-- ===== src/Descendants/Aging.antt =====
-- What the cascade may do to the list of threads: end some of them, and nothing else.
use orchestra_threads.Prelude.{
  ℕ, ◌≤◌, ◌<◌, ◌≡◌, refl, ◌∙◌, Bool, true, ◌&&◌, List, [], ◌∷◌, arith, inl, inr, Bool-cases, length,
}
use orchestra_threads.Text.{Text, ◌==◌}
use orchestra_threads.Common.{closed}
use orchestra_threads.Sql.{update, exists_row}
use orchestra_threads.Rows.{Thread}
use orchestra_threads.Store.Query.{has_id, is_live}
use orchestra_threads.Store.Notifications.{terminated}
use orchestra_threads.Descendants.{CleanIds, live_count}

pub record AgedRow (x y : Thread) : Type 0 where
  pub thread_id : y.thread_id ≡ x.thread_id
  pub parent : y.parent_thread_id ≡ x.parent_thread_id
  pub live : is_live y ≡ true → is_live x ≡ true

abbrev pub Aged : List Thread → List Thread → Type 0
Aged [] [] = Unit
Aged [] (y ∷ ys) = ⊥
Aged (x ∷ xs) [] = ⊥
Aged (x ∷ xs) (y ∷ ys) = AgedRow x y × Aged xs ys

pub Aged-refl : (xs : List Thread) → Aged xs xs
Aged-refl [] = tt
Aged-refl (x ∷ xs) = (record { thread_id = refl; parent = refl; live = λ h. h }, Aged-refl xs)

pub Aged-trans : (xs ys zs : List Thread) → Aged xs ys → Aged ys zs → Aged xs zs
Aged-trans [] [] zs h k = k
Aged-trans [] (y ∷ ys) zs h k = absurd h
Aged-trans (x ∷ xs) [] zs h k = absurd h
Aged-trans (x ∷ xs) (y ∷ ys) [] h k = absurd k
Aged-trans (x ∷ xs) (y ∷ ys) (z ∷ zs) h k = (
  record {
    thread_id = k.0.thread_id ∙ h.0.thread_id;
    parent = k.0.parent ∙ h.0.parent;
    live = λ l. h.0.live (k.0.live l);
  },
  Aged-trans xs ys zs h.1 k.1,
)

-- `closing i now` is the UPDATE of `close_thread`.
unfoldable pub closing : Text → ℕ → List Thread → List Thread
closing i now = update (λ t. has_id i t && is_live t) (terminated closed now)

pub Aged-closing : (i : Text) (now : ℕ) (xs : List Thread) → Aged xs (closing i now xs)
unfolding closing update terminated
Aged-closing i now [] = tt
Aged-closing i now (x ∷ xs) = (
  elim (Bool-cases (has_id i x && is_live x)) [
    | inl e ↦ rw e (record { thread_id = refl; parent = refl; live = λ h. absurd (cc) })
    | inr e ↦ rw e (record { thread_id = refl; parent = refl; live = λ h. h })
  ],
  Aged-closing i now xs,
)

-- Among threads that have aged since, closing one that was live leaves fewer live threads.
abbrev pub was_live : Text → Thread → Bool
was_live i x = x.thread_id == i && is_live x

pub closing-le :
    (i : Text) (now : ℕ) (xs ys : List Thread)
    → Aged xs ys
    → live_count (closing i now ys) ≤ live_count xs
unfolding closing update terminated
closing-le i now [] [] h = omega arith
closing-le i now [] (y ∷ ys) h = absurd h
closing-le i now (x ∷ xs) [] h = absurd h
closing-le i now (x ∷ xs) (y ∷ ys) h = ground (arith, closing-le i now xs ys h.1, h.0.live)

pub closing-lt :
    (i : Text) (now : ℕ) (xs ys : List Thread)
    → Aged xs ys
    → exists_row (was_live i) xs ≡ true
    → live_count (closing i now ys) < live_count xs
unfolding closing update terminated exists_row
closing-lt i now [] [] h e = absurd (cc)
closing-lt i now [] (y ∷ ys) h e = absurd h
closing-lt i now (x ∷ xs) [] h e = absurd h
closing-lt i now (x ∷ xs) (y ∷ ys) h e =
    ground (arith, closing-lt i now xs ys h.1, closing-le i now xs ys h.1, h.0.live, h.0.thread_id)

pub live_count-le : (xs : List Thread) → live_count xs ≤ length xs
live_count-le [] = omega arith
live_count-le (x ∷ xs) = ground (arith, live_count-le xs)

pub CleanIds-Aged : (xs ys : List Thread) → Aged xs ys → CleanIds xs → CleanIds ys
CleanIds-Aged [] [] h c = tt
CleanIds-Aged [] (y ∷ ys) h c = absurd h
CleanIds-Aged (x ∷ xs) [] h c = absurd h
CleanIds-Aged (x ∷ xs) (y ∷ ys) h c = (rw h.0.thread_id c.0, CleanIds-Aged xs ys h.1 c.1)
