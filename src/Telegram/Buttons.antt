-- ===== src/Telegram/Buttons.antt =====
-- telegram_bot_listener/http_payloads.py, state_store_parts/sessions.py: the buttons of a new survey.
use orchestra_threads.Prelude.{
  ℕ, suc, ◌+◌, ◌≡◌, refl, sym, Bool, true, ◌||◌, List, [], ◌∷◌, ◌++◌, Result, ok, inl, inr,
  Bool-cases, if◌then◌else◌, arith, All, All-map, length, subst,
}
use orchestra_threads.Prelude.Fallible.{◌>>=◌, map_result}
use orchestra_threads.Text.{Text, ◌==◌, eq_refl, eq→path}
use orchestra_threads.Sql.{exists_row}
use orchestra_threads.Sql.Sorting.{Among}
use orchestra_threads.Dict.{Dict, get}
use orchestra_threads.Telegram.Models.{SurveyOption, SurveyQuestion, CallbackAction}
use orchestra_threads.Telegram.Sessions.{SessionCreateRequest, build, new_session}
use orchestra_threads.Telegram.Tokens.{listed, all_listed, build-listed}
use orchestra_threads.Telegram.Payloads.{
  Button, is_for, token_of, question_rows, buttons_of, question_buttons,
}

exists_row-concat :
    {A : Type 0} (p : A → Bool) (xs ys : List A)
    → exists_row p (xs ++ ys) ≡ (exists_row p xs || exists_row p ys)
unfolding exists_row
exists_row-concat p [] ys = refl
exists_row-concat p (x ∷ xs) ys = ground (arith, exists_row-concat p xs ys)

-- A button of a question and an option is among the actions.
abbrev Has : Text → Dict CallbackAction → SurveyOption → Type 0
Has question_id d o =
    exists_row (λ (p : Text × CallbackAction). is_for question_id o.option_id p.1) d ≡ true

-- The items of two lists, one by one.
abbrev pub Each : {A B : Type 0} → (A → B → Type 0) → List A → List B → Type 0
Each R [] [] = Unit
Each R [] (y ∷ ys) = ⊥
Each R (x ∷ xs) [] = ⊥
Each R (x ∷ xs) (y ∷ ys) = R x y × Each R xs ys

Each-append :
    {A B : Type 0} (R : A → B → Type 0) (xs vs : List A) (ys ws : List B)
    → Each R xs ys
    → Each R vs ws
    → Each R (xs ++ vs) (ys ++ ws)
Each-append R [] vs [] ws h k = k
Each-append R [] vs (y ∷ ys) ws h k = elim h [ ]
Each-append R (x ∷ xs) vs [] ws h k = elim h [ ]
Each-append R (x ∷ xs) vs (y ∷ ys) ws h k = (h.0, Each-append R xs vs ys ws h.1 k)

-- The token stands for a button of the question and the option.
abbrev pub StandsFor : Dict CallbackAction → Text → Text → Text → Type 0
StandsFor d question_id option_id t =
    (a : CallbackAction) × Among (t, a) d
    × (a.question_id ≡ question_id)
    × (a.option_id ≡ option_id)

-- A row of one button, with the label of the option and a token that stands for it.
abbrev pub IsRowOf : Dict CallbackAction → Text → SurveyOption → List Button → Type 0
IsRowOf d question_id o row =
    (t : Text) × (row ≡ record { text = o.label; callback_data = t } ∷ [])
    × StandsFor d question_id o.option_id t

token_of-Has :
    (d : Dict CallbackAction) (question_id : Text) (o : SurveyOption)
    → Has question_id d o
    → (t : Text) × (token_of d question_id o.option_id ≡ ok t)
      × StandsFor d question_id o.option_id t
unfolding exists_row token_of is_for
token_of-Has [] question_id o h = absurd (cc h)
token_of-Has ((t, a) ∷ d) question_id o h = elim (Bool-cases (is_for question_id o.option_id a)) [
  | inl e ↦ (
    t,
    rw e refl,
    (
      a,
      inl refl,
      eq→path a.question_id question_id (ground (arith, e)),
      eq→path a.option_id o.option_id (ground (arith, e)),
    ),
  )
  | inr e ↦
      let (u, k, (b, there, q, i)) = token_of-Has d question_id o (rw e at h) in
      (u, rw e k, (b, inr there, q, i))
]

module _ {A B : Type 0} (P : A → Type 0) (R : A → B → Type 0) (f : A → Result B) where
  -- A comprehension whose items do not raise does not raise, and has one item for each.
  map_result-ok :
      ((a : A) → P a → (b : B) × (f a ≡ ok b) × R a b)
      → (xs : List A) → All P xs
      → (ys : List B) × (map_result f xs ≡ ok ys) × Each R xs ys
  unfolding map_result
  map_result-ok h [] k = ([], refl, tt)
  map_result-ok h (x ∷ xs) k =
      let (b, e, r) = h x k.0 in
      let (ys, e', rs) = map_result-ok h xs k.1 in (b ∷ ys, rw (e, e') refl, (r, rs))

-- All options of a question have a button.
abbrev Served : Dict CallbackAction → SurveyQuestion → Type 0
Served d q = All (Has q.question_id d) q.options

-- The options of the questions that have an id.
abbrev pub options_of : Text → List SurveyQuestion → List SurveyOption
options_of question_id [] = []
options_of question_id (q ∷ qs) =
    let rest = options_of question_id qs in
    if q.question_id == question_id then q.options ++ rest else rest

abbrev row_of : Dict CallbackAction → Text → SurveyOption → Result (List Button)
row_of d question_id o = token_of d question_id o.option_id >>= λ token.
    ok (record { text = o.label; callback_data = token } ∷ [])

row_of-Has :
    (d : Dict CallbackAction) (question_id : Text) (o : SurveyOption)
    → Has question_id d o
    → (row : List Button) × (row_of d question_id o ≡ ok row) × IsRowOf d question_id o row
row_of-Has d question_id o has =
    let (t, k, stands) = token_of-Has d question_id o has in
    (record { text = o.label; callback_data = t } ∷ [], rw k refl, (t, refl, stands))

buttons_of-Served :
    (d : Dict CallbackAction) (qs : List SurveyQuestion) (question_id : Text)
    → All (Served d) qs
    → (rows : List (List Button)) × (buttons_of d qs question_id ≡ ok rows)
      × Each (IsRowOf d question_id) (options_of question_id qs) rows
unfolding buttons_of question_rows
buttons_of-Served d [] question_id h = ([], refl, tt)
buttons_of-Served d (q ∷ qs) question_id h =
    let (more, k, m) = buttons_of-Served d qs question_id h.1 in
    elim (Bool-cases (q.question_id == question_id)) [
      | inr e ↦ (more, rw (e, k) refl, rw e m)
      | inl e ↦
          let (rows, r, each) =
            map_result-ok (Has question_id d) (IsRowOf d question_id) (row_of d question_id)
              (row_of-Has d question_id) q.options
              (subst (λ i. All (Has i d) q.options) (eq→path q.question_id question_id e) h.0) in
          (
            rows ++ more,
            rw (e, r, k) refl,
            rw e (Each-append _ q.options (options_of question_id qs) rows more each m),
          )
    ]

Has-left :
    (question_id : Text) (d e : Dict CallbackAction) (o : SurveyOption)
    → Has question_id d o
    → Has question_id (d ++ e) o
Has-left question_id d e o h = ground (
  arith,
  exists_row-concat (λ (p : Text × CallbackAction). is_for question_id o.option_id p.1) d e,
)

Has-right :
    (question_id : Text) (d e : Dict CallbackAction) (o : SurveyOption)
    → Has question_id e o
    → Has question_id (d ++ e) o
Has-right question_id d e o h = ground (
  arith,
  exists_row-concat (λ (p : Text × CallbackAction). is_for question_id o.option_id p.1) d e,
)

module _ (token : ℕ → Text) (session_id : Text) where
  listed-Has :
      (q : SurveyQuestion) (n : ℕ) (os : List SurveyOption)
      → All (Has q.question_id (listed token session_id q n os)) os
  unfolding exists_row is_for
  listed-Has q n [] = tt
  listed-Has q n (o ∷ os) = (
    ground (arith, eq_refl q.question_id, eq_refl o.option_id),
    All-map _ _ os (λ u h. ground (arith, h)) (listed-Has q (suc n) os),
  )

  all_listed-Served :
      (n : ℕ) (qs : List SurveyQuestion) → All (Served (all_listed token session_id n qs)) qs
  all_listed-Served n [] = tt
  all_listed-Served n (q ∷ qs) =
      let first = listed token session_id q n q.options in
      let rest = all_listed token session_id (n + length q.options) qs in
      (
        All-map (Has q.question_id first) (Has q.question_id (first ++ rest)) q.options
            (Has-left q.question_id first rest) (listed-Has q n q.options),
        All-map (Served rest) (Served (first ++ rest)) qs
            (λ r h.
              All-map (Has r.question_id rest) (Has r.question_id (first ++ rest)) r.options
                (Has-right r.question_id first rest) h)
            (all_listed-Served (n + length q.options) qs),
      )

-- In a survey that has just been created, with tokens that do not repeat, a question gets one button for each
-- option of the questions with its id, in their order, with the label of the option and a token under
-- which the survey has that question and option; so `callback token not found` is not raised. This
-- holds also if question ids or option ids repeat.
pub new_survey_has_buttons :
    (token : ℕ → Text) (session_id now : Text) (r : SessionCreateRequest) (question_id : Text)
    → ((m n : ℕ) → token m ≡ token n → m ≡ n)
    → let session = new_session token session_id now r in
      (rows : List (List Button)) × (question_buttons session question_id ≡ ok rows)
      × Each
          (IsRowOf session.callback_actions question_id)
          (options_of question_id r.questions)
          rows
unfolding question_buttons get
new_survey_has_buttons token session_id now r question_id fresh =
    buttons_of-Served (build token session_id 0 r.questions []) r.questions question_id (
      subst (λ d. All (Served d) r.questions)
        (sym (build-listed token fresh session_id 0 r.questions [] (λ m h. refl)))
        (all_listed-Served token session_id 0 r.questions))
