-- ===== src/Common/Laws.antt =====
-- The normal form of a pair of participants, and the cleaning of the texts that users send.
use orchestra_threads.Prelude.{
  ℕ, ◌<◌, ◌≡◌, refl, Bool, true, false, arith, All, [], ◌∷◌, ◌++◌, inl, inr, ◌⊎◌, Bool-cases,
}
use orchestra_threads.Text.{Text, strip, text_le}
use orchestra_threads.Text.Order.{text_le_antisymm, text_le_total}
use orchestra_threads.Sql.{select}
use orchestra_threads.Sql.Laws.{All-select-true, select-append}
use orchestra_threads.Common.{normalize_participants, is_printable_char, normalize_text_input}

-- The pair of participants that is stored is the same for both directions of a conversation: it has
-- the two slugs, stripped, and the first of them is not greater than the second.
pub normalize_participants_comm :
    (a b : Text)
    → (normalize_participants a b ≡ normalize_participants b a)
      × (text_le (normalize_participants a b).0 (normalize_participants a b).1 ≡ true)
      × ((normalize_participants a b ≡ (strip a, strip b))
          ⊎ (normalize_participants a b ≡ (strip b, strip a)))
unfolding normalize_participants
normalize_participants_comm a b = (
  ground (
    arith,
    text_le_antisymm (strip a) (strip b),
    text_le_total (strip a) (strip b),
    text_le_total (strip b) (strip a),
  ),
  ground (arith, text_le_total (strip a) (strip b)),
  elim (Bool-cases (text_le (strip a) (strip b))) [
    | inl e ↦ inl (rw e refl)
    | inr e ↦ inr (rw e refl)
  ],
)

-- A character that the input of a user may hold: no half of a surrogate pair, and of the category "C"
-- only the newline, the carriage return and the tab.
abbrev pub IsAllowed : (ℕ → Bool) → ℕ → Type 0
IsAllowed is_other c =
    ((c < 0xD800) ⊎ (0xDFFF < c)) × ((c ≡ 10) ⊎ (c ≡ 13) ⊎ (c ≡ 9) ⊎ (is_other c ≡ false))

printable-IsAllowed :
    (is_other : ℕ → Bool) (c : ℕ) → is_printable_char is_other c ≡ true → IsAllowed is_other c
unfolding is_printable_char
printable-IsAllowed is_other c h = ground (arith, h)

IsAllowed-printable :
    (is_other : ℕ → Bool) (c : ℕ) → IsAllowed is_other c → is_printable_char is_other c ≡ true
unfolding is_printable_char
IsAllowed-printable is_other c h = ground (arith, h)

kept :
    (is_other : ℕ → Bool) (xs : Text)
    → All (IsAllowed is_other) xs
    → select (is_printable_char is_other) xs ≡ xs
unfolding select
kept is_other [] h = refl
kept is_other (c ∷ xs) h =
    rw (IsAllowed-printable is_other c h.0, select, kept is_other xs h.1) refl

-- Cleaned text holds no lone surrogate, and of the characters of the category "C" only the newline, the
-- carriage return and the tab; cleaning takes the allowed characters of each of two parts in their order, and
-- leaves a text of allowed characters as it is.
pub normalize_text_input-clean :
    (is_other : ℕ → Bool) (raw more : Text)
    → All (IsAllowed is_other) (normalize_text_input is_other raw)
      × (normalize_text_input is_other (raw ++ more)
          ≡ normalize_text_input is_other raw ++ normalize_text_input is_other more)
      × (All (IsAllowed is_other) raw → normalize_text_input is_other raw ≡ raw)
unfolding normalize_text_input
normalize_text_input-clean is_other raw more = (
  All-select-true (IsAllowed is_other) (is_printable_char is_other) (printable-IsAllowed is_other)
      raw,
  select-append (is_printable_char is_other) raw more,
  kept is_other raw,
)
