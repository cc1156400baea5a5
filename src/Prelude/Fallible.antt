-- ===== src/Prelude/Fallible.antt =====
-- Functions that may raise and touch no state: `do` blocks of results.
use mathlib.Core.Path.{◌≡◌, refl}
use mathlib.Core.List.{List, [], ◌∷◌, map}
use orchestra_threads.Prelude.Lists.{All}
use orchestra_threads.Prelude.Results.{Result, ok, err}

infixl 5 ◌>>=◌
abbrev pub ◌>>=◌ : {A B : Type 0} → Result A → (A → Result B) → Result B
ok a >>= f = f a
err e >>= f = err e

module _ {A B : Type 0} where
  -- A comprehension whose item may raise: the first error is the one that is raised.
  unfoldable pub map_result : (A → Result B) → List A → Result (List B)
  map_result f [] = ok []
  map_result f (x ∷ xs) = f x >>= λ y. map_result f xs >>= λ ys. ok (y ∷ ys)

  -- A comprehension that undoes the one before it, on items that satisfy `P`.
  pub map_result-back :
      (P : B → Type 0) (f : A → Result B) (g : B → A)
      → ((y : B) → P y → f (g y) ≡ ok y)
      → (ys : List B) → All P ys
      → map_result f (map g ys) ≡ ok ys
  unfolding map_result
  map_result-back P f g h [] k = refl
  map_result-back P f g h (y ∷ ys) k = rw (h y k.0, map_result-back P f g h ys k.1) refl

pub All-Unit : {A : Type 0} (xs : List A) → All (λ x. Unit {0}) xs
All-Unit [] = tt
All-Unit (x ∷ xs) = (tt, All-Unit xs)
