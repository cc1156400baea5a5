-- ===== src/Text/Decimal.antt =====
-- `str` of an integer that is not negative: its decimal digits.
use Prim.Native.Nat.{◌/◌, ◌%◌}
use orchestra_threads.Prelude.{
  ℕ, zero, suc, ◌+◌, ◌-◌, ◌*◌, ◌<◌, ◌≡◌, refl, ap, sym, ◌∙◌, true, false, [], ◌∷◌, ◌++◌, arith, ltb,
  inl, inr, Bool-cases,
}
use orchestra_threads.Text.{Text}

-- A number has at most as many digits as the fuel if it is below the fuel.
unfoldable digits : ℕ → ℕ → Text
digits zero n = []
digits (suc fuel) n = elim (ltb n 10) [
  | true ↦ (b'0' + n) ∷ []
  | false ↦ digits fuel (n / 10) ++ (b'0' + n % 10) ∷ []
]

unfoldable pub str_int : ℕ → Text
unfolding digits
str_int n = digits (suc n) n

abbrev value : ℕ → Text → ℕ
value n [] = n
value n (c ∷ s) = value (n * 10 + (c - b'0')) s

value-append : (n : ℕ) (s : Text) (c : ℕ) → value n (s ++ c ∷ []) ≡ value n s * 10 + (c - b'0')
value-append n [] c = refl
value-append n (d ∷ s) c = value-append (n * 10 + (d - b'0')) s c

value-digits : (fuel n : ℕ) → n < fuel → value 0 (digits fuel n) ≡ n
unfolding digits
value-digits zero n h = omega arith
value-digits (suc fuel) n h = elim (Bool-cases (ltb n 10)) [
  | inl e ↦ rw (e, digits) (omega arith)
  | inr e ↦
      rw (e, digits)
        (value-append 0 (digits fuel (n / 10)) (b'0' + n % 10)
          ∙ ground (arith, value-digits fuel (n / 10)))
]

-- Different numbers have different texts.
pub str_int_inj : (m n : ℕ) → str_int m ≡ str_int n → m ≡ n
unfolding str_int
str_int_inj m n h =
    sym (value-digits (suc m) m (omega arith))
    ∙ ap (value 0) h
    ∙ value-digits (suc n) n (omega arith)
