-- ===== src/Telegram/Answers.antt =====
-- telegram_bot_listener/state_store_parts/sessions.py: the answers to a question.
use orchestra_threads.Prelude.{
  ◌≡◌, refl, sym, Bool, true, false, List, [], ◌∷◌, ◌++◌, inl, inr, Bool-cases, arith,
  if◌then◌else◌,
}
use orchestra_threads.Text.{Text, ◌==◌, eq_refl, eq→path, eq_comm}
use orchestra_threads.Sql.{exists_row}
use orchestra_threads.Sql.Laws.{exists_row-append}
use orchestra_threads.Telegram.Sessions.{merge_answer, merge_multi_select_answer, remove}

-- The option is among the answers.
abbrev pub is_answer : Text → List Text → Bool
is_answer o answers = exists_row (λ a. a == o) answers

-- Every answer stands once.
abbrev pub Once : List Text → Type 0
Once [] = Unit
Once (a ∷ answers) = (is_answer a answers ≡ false) × Once answers

Once-append :
    (o : Text) (answers : List Text)
    → is_answer o answers ≡ false
    → Once answers
    → Once (answers ++ o ∷ [])
unfolding exists_row
Once-append o [] h k = (refl, tt)
Once-append o (a ∷ answers) h k = (
  ground (arith, h, k.0, exists_row-append (λ b. b == a) answers o, eq_comm a o),
  Once-append o answers (ground (arith, h)) k.1,
)

-- Removing an answer leaves the other ones.
is_answer-remove :
    (o p : Text) (answers : List Text)
    → (o == p) ≡ false
    → is_answer p (remove o answers) ≡ is_answer p answers
unfolding exists_row remove
is_answer-remove o p [] h = refl
is_answer-remove o p (a ∷ answers) h = elim (Bool-cases (a == o)) [
  | inl e ↦ rw (e, eq→path a o e, h) refl
  | inr e ↦ rw (e, is_answer-remove o p answers h) refl
]

removed : (o : Text) (answers : List Text) → Once answers → is_answer o (remove o answers) ≡ false
unfolding exists_row remove
removed o [] k = refl
removed o (a ∷ answers) k = elim (Bool-cases (a == o)) [
  | inl e ↦ rw e (rw (sym (eq→path a o e)) k.0)
  | inr e ↦ ground (arith, e, removed o answers k.1)
]

still_absent :
    (o a : Text) (answers : List Text)
    → is_answer a answers ≡ false
    → is_answer a (remove o answers) ≡ false
unfolding exists_row remove
still_absent o a [] h = refl
still_absent o a (b ∷ answers) h = ground (arith, still_absent o a answers)

Once-remove : (o : Text) (answers : List Text) → Once answers → Once (remove o answers)
unfolding remove
Once-remove o [] k = tt
Once-remove o (a ∷ answers) k = elim (Bool-cases (a == o)) [
  | inl e ↦ rw e k.1
  | inr e ↦ rw e (still_absent o a answers k.0, Once-remove o answers k.1)
]

-- Answers that stand once, with a flag that says whether the option is one of them.
abbrev pub Merged : Text → List Text × Bool → Type 0
Merged o (answers, selected) = Once answers × (selected ≡ is_answer o answers)

either :
    (o : Text) (m n : List Text × Bool)
    → Merged o m
    → Merged o n
    → (b : Bool) → Merged o (if b then m else n)
either o m n h k true = h
either o m n h k false = k

alone : (o : Text) → Merged o (o ∷ [], true)
unfolding exists_row
alone o = ((refl, tt), ground (arith, eq_refl o))

-- A button of a single choice leaves its option as the only answer. A button of a multiple choice takes
-- its option out of the answers if it is among them, puts it in if it is not, and leaves the other options
-- as they are. In both cases an answer stands once if it did before, and the result says whether the option is an answer now.
pub merge_answer_lem :
    (answers : List Text) (o : Text)
    → Once answers
    → ((merge_answer answers o false).0 ≡ o ∷ [])
      × (is_answer o (merge_answer answers o true).0
          ≡ (if is_answer o answers then false else true))
      × ((p : Text)
          → (o == p) ≡ false
          → is_answer p (merge_answer answers o true).0 ≡ is_answer p answers)
      × ((multi_select : Bool) → Merged o (merge_answer answers o multi_select))
unfolding merge_answer merge_multi_select_answer exists_row
merge_answer_lem answers o k = elim (Bool-cases (is_answer o answers)) [
  | inl e ↦ rw e (
    refl,
    removed o answers k,
    λ p h. is_answer-remove o p answers h,
    either o _ _ (Once-remove o answers k, sym (removed o answers k)) (alone o),
  )
  | inr e ↦
      let there : is_answer o (answers ++ o ∷ []) ≡ true =
        ground (arith, exists_row-append (λ a. a == o) answers o, eq_refl o) in
      rw e (
        refl,
        there,
        λ p h. ground (arith, exists_row-append (λ a. a == p) answers o, h),
        either o _ _ (Once-append o answers e k, sym there) (alone o),
      )
]
