-- ===== src/Text.antt =====
-- Python's `str` as its code points (a lone surrogate is one too), and the methods of `str` that
-- core/orchestra_thread uses: `strip`, `lower`, `rstrip("/")`, comparison, slices from the start.
pub mod Strip
pub mod Order
pub mod Decimal
use Prim.Native.Char.{code}
use Prim.Native.String.{String}
use orchestra_threads.Prelude.{
  ℕ, ◌+◌, ◌≡◌, refl, ◌↔◌, Bool, true, false, ◌&&◌, ◌||◌, List, [], ◌∷◌, map, arith, leb, ltb, eqb,
  eqb_iff, if◌then◌else◌,
}

abbrev pub Text : Type 0
Text = List ℕ

-- A literal of the source.
unfoldable pub lit : String → Text
lit String.[] = []
lit (String.◌∷◌ c s) = code c ∷ lit s

infix 50 ◌==◌
unfoldable pub ◌==◌ : Text → Text → Bool
[] == [] = true
[] == (d ∷ t) = false
(c ∷ s) == [] = false
(c ∷ s) == (d ∷ t) = eqb c d && (s == t)

pub eq_refl : (s : Text) → (s == s) ≡ true
unfolding ◌==◌
eq_refl [] = refl
eq_refl (c ∷ s) = ground (arith, eq_refl s)

pub eq→path : (s t : Text) → (s == t) ≡ true → s ≡ t
unfolding ◌==◌
eq→path [] [] h = refl
eq→path [] (d ∷ t) h = cc
eq→path (c ∷ s) [] h = cc
eq→path (c ∷ s) (d ∷ t) h = ground (arith, eq→path s t)

pub eq_iff : (s t : Text) → ((s == t) ≡ true) ↔ (s ≡ t)
eq_iff s t = (eq→path s t, λ e. cc (eq_refl s, e))

pub eq_comm : (s t : Text) → (s == t) ≡ (t == s)
unfolding ◌==◌
eq_comm [] [] = refl
eq_comm [] (d ∷ t) = refl
eq_comm (c ∷ s) [] = refl
eq_comm (c ∷ s) (d ∷ t) = ground (arith, eq_comm s t)

-- `not text`
abbrev pub is_empty : Text → Bool
is_empty [] = true
is_empty (c ∷ s) = false

abbrev pub non_empty : Text → Bool
non_empty [] = false
non_empty (c ∷ s) = true

-- `str.isspace` of one character, which is what `strip` removes.
unfoldable pub is_space : ℕ → Bool
is_space c =
    (leb 9 c && leb c 13)
    || (leb 28 c && leb c 32)
    || eqb c 133
    || eqb c 160
    || eqb c 5760
    || (leb 8192 c && leb c 8202)
    || eqb c 8232
    || eqb c 8233
    || eqb c 8239
    || eqb c 8287
    || eqb c 12288

module _ (drop : ℕ → Bool) where
  unfoldable pub lstrip_by : Text → Text
  lstrip_by [] = []
  lstrip_by (c ∷ s) = let rest = lstrip_by s in if drop c then rest else c ∷ s

  unfoldable pub rstrip_by : Text → Text
  rstrip_by [] = []
  rstrip_by (c ∷ s) = let rest = rstrip_by s in if drop c && is_empty rest then [] else c ∷ rest

unfoldable pub strip : Text → Text
unfolding lstrip_by rstrip_by
strip s = rstrip_by is_space (lstrip_by is_space s)

-- `base_url.rstrip("/")`
unfoldable pub rstrip_slash : Text → Text
unfolding rstrip_by
rstrip_slash = rstrip_by (λ c. eqb c b'/')

-- `str.lower` on ASCII; other characters are left as they are.
unfoldable pub lower : Text → Text
lower = map (λ c. if leb b'A' c && leb c b'Z' then c + 32 else c)

-- `left <= right` on texts: by code points.
unfoldable pub text_le : Text → Text → Bool
text_le [] t = true
text_le (c ∷ s) [] = false
text_le (c ∷ s) (d ∷ t) = ltb c d || (eqb c d && text_le s t)
