-- ===== src/Telegram/Tokens.antt =====
-- telegram_bot_listener/state_store_parts/sessions.py: the callback actions of a new survey, one for each
-- option, each under its own token.
use orchestra_threads.Prelude.{
  ℕ, suc, ◌+◌, ◌≤◌, ◌≡◌, refl, ap, sym, ◌∙◌, none, List, [], ◌∷◌, ◌++◌, inl, inr, Bool-cases, arith,
  length,
}
use mathlib.Core.List.{append-nil, append_assoc}
use orchestra_threads.Text.{Text, ◌==◌}
use orchestra_threads.Dict.{Dict, get, put, get-put-other, differ}
use orchestra_threads.Telegram.Models.{SurveyOption, SurveyQuestion, CallbackAction}
use orchestra_threads.Telegram.Sessions.{action_of, option_actions, question_actions, merged, build}

-- A new key is appended.
put-new :
    {A : Type 0} (k : Text) (a : A) (d : Dict A) → get k d ≡ none → put k a d ≡ d ++ (k, a) ∷ []
unfolding get put
put-new k a [] h = refl
put-new k a ((j, b) ∷ d) h = elim (Bool-cases (j == k)) [
  | inl e ↦ absurd (cc (rw e at h))
  | inr e ↦ rw (e, put-new k a d (rw e at h)) refl
]

module _ (token : ℕ → Text) (session_id : Text) where
  -- The actions of the options, each under its own token.
  abbrev pub listed : SurveyQuestion → ℕ → List SurveyOption → Dict CallbackAction
  listed q n [] = []
  listed q n (o ∷ os) = (token n, action_of token session_id q o) ∷ listed q (suc n) os

  abbrev pub all_listed : ℕ → List SurveyQuestion → Dict CallbackAction
  all_listed n [] = []
  all_listed n (q ∷ qs) = listed q n q.options ++ all_listed (n + length q.options) qs

module _ (token : ℕ → Text) (fresh : (m n : ℕ) → token m ≡ token n → m ≡ n)
    (session_id : Text) where
  -- No token from the n-th on is used.
  abbrev pub Free : ℕ → Dict CallbackAction → Type 0
  Free n actions = (m : ℕ) → n ≤ m → get (token m) actions ≡ none

  put-Free :
      (n : ℕ) (a : CallbackAction) (d : Dict CallbackAction)
      → Free n d
      → Free (suc n) (put (token n) a d)
  put-Free n a d free m h =
      get-put-other (token m) (token n) a d
        (differ (token n) (token m) λ e. two n m h (fresh n m e))
      ∙ free m (omega arith)
    where
      two : (n m : ℕ) → suc n ≤ m → n ≡ m → ⊥
      two n m h e = absurd (omega arith)

  -- What the two loops over options do to actions that use none of the tokens.
  option_actions-listed :
      (q : SurveyQuestion) (n : ℕ) (os : List SurveyOption) (d : Dict CallbackAction)
      → Free n d
      → option_actions token session_id q n os d ≡ d ++ listed token session_id q n os
  unfolding option_actions
  option_actions-listed q n [] d free = sym (append-nil d)
  option_actions-listed q n (o ∷ os) d free =
      option_actions-listed q (suc n) os (put (token n) (action_of token session_id q o) d)
        (put-Free n _ d free)
      ∙ ap (λ e. e ++ listed token session_id q (suc n) os)
          (put-new (token n) _ d (free n (omega arith)))
      ∙ append_assoc d _ (listed token session_id q (suc n) os)

  merged-listed :
      (q : SurveyQuestion) (n : ℕ) (os : List SurveyOption) (d : Dict CallbackAction)
      → Free n d
      → (merged token session_id d (listed token session_id q n os)
          ≡ d ++ listed token session_id q n os)
        × Free (n + length os) (merged token session_id d (listed token session_id q n os))
  unfolding merged
  merged-listed q n [] d free = (sym (append-nil d), λ m h. free m (omega arith))
  merged-listed q n (o ∷ os) d free =
      let a = action_of token session_id q o in
      let (same, later) = merged-listed q (suc n) os (put (token n) a d) (put-Free n a d free) in
      (
        same
            ∙ ap (λ e. e ++ listed token session_id q (suc n) os)
                (put-new (token n) a d (free n (omega arith)))
            ∙ append_assoc d _ (listed token session_id q (suc n) os),
        λ m h. later m (omega arith),
      )

  pub build-listed :
      (n : ℕ) (qs : List SurveyQuestion) (d : Dict CallbackAction)
      → Free n d
      → build token session_id n qs d ≡ d ++ all_listed token session_id n qs
  unfolding build question_actions get
  build-listed n [] d free = sym (append-nil d)
  build-listed n (q ∷ qs) d free =
      let (same, later) = merged-listed q n q.options d free in
      rw (option_actions-listed q n q.options [] (λ m h. refl)) (
        build-listed (n + length q.options) qs
          (merged token session_id d (listed token session_id q n q.options)) later
        ∙ ap (λ e. e ++ all_listed token session_id (n + length q.options) qs) same
        ∙ append_assoc d (listed token session_id q n q.options)
            (all_listed token session_id (n + length q.options) qs))
