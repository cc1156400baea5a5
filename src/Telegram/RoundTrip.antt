-- ===== src/Telegram/RoundTrip.antt =====
-- models.py: what `to_dict` writes, `from_dict` reads back.
use orchestra_threads.Prelude.{
  ℕ, zero, suc, ◌≡◌, refl, false, Option, none, some, List, [], ◌∷◌, map, Result, ok, All,
}
use orchestra_threads.Prelude.Fallible.{map_result-back, All-Unit}
use orchestra_threads.Text.{Text, ◌==◌, lit, strip, is_empty, lstrip_by, rstrip_by}
use orchestra_threads.Dict.{Dict, get}
use orchestra_threads.Json.{
  Json, string, number, Python, truth, cast_json_dict, cast_json_list, required, str_json,
  stripped_text, optional_json_text, parse_int, field_dict, object_fields, item_list-array_items,
  field_dict-object_fields,
}
use orchestra_threads.Telegram.Models.{
  SurveyOption, SurveyQuestion, CallbackAction, SurveySession, TranscriptEntry, ListenerState,
}
use orchestra_threads.Telegram.Codec.{
  json_list, json_object, json_text, at_key, option_to_dict, question_to_dict, action_to_dict,
  session_to_dict, entry_to_dict, state_to_dict, dict_items, flag, text_at, int_at,
  option_from_dict, question_from_dict, action_from_dict, session_from_dict, entry_from_dict,
  or_zero, state_from_dict,
}

-- A stored text that `optional_text` leaves as it is.
abbrev pub Clean : Option Text → Type 0
Clean none = Unit
Clean (some s) = (strip s ≡ s) × (is_empty s ≡ false)

read_list :
    {A : Type 0} (f : A → Json) (xs : List A) → cast_json_list (some (json_list f xs)) ≡ map f xs
unfolding cast_json_list
read_list f xs = item_list-array_items (map f xs)

read_object :
    {A : Type 0} (f : A → Json) (d : Dict A)
    → cast_json_dict (some (json_object f d)) ≡ map (at_key f) d
unfolding cast_json_dict
read_object f d = field_dict-object_fields (map (at_key f) d)

dict_items-back :
    {A : Type 0} (P : A → Type 0) (f : Json → Result A) (g : A → Json)
    → ((a : A) → P a → f (g a) ≡ ok a)
    → (d : Dict A) → All (λ (x : Text × A). P x.1) d
    → dict_items f (map (at_key g) d) ≡ ok d
unfolding dict_items
dict_items-back P f g h d k =
    map_result-back (λ (x : Text × _). P x.1) _ (at_key g) (λ (j, a) p. rw (h a p) refl) d k

-- The texts that `from_dict` strips are stripped.
pub record IsClean (s : ListenerState) : Type 0 where
  pub sessions : All (λ (x : Text × SurveySession). Clean x.1.completed_at) s.sessions
  pub transcript : All (λ (e : TranscriptEntry). Clean e.session_id) s.transcript

or_zero-number : (n : ℕ) → or_zero (some (number n)) ≡ number n
unfolding or_zero truth
or_zero-number zero = refl
or_zero-number (suc n) = refl

module _ (python : Python) where
  str_json-string : (xs : List Text) → map (str_json python) (map string xs) ≡ xs
  unfolding str_json
  str_json-string [] = refl
  str_json-string (x ∷ xs) = rw (str_json-string xs) refl

  optional-Clean : (t : Option Text) → Clean t → optional_json_text python (some (json_text t)) ≡ t
  unfolding optional_json_text stripped_text truth str_json strip lstrip_by rstrip_by
  optional-Clean none h = refl
  optional-Clean (some []) h = absurd (cc h.1)
  optional-Clean (some (c ∷ s)) h = rw h.0 refl

  option_round :
      (o : SurveyOption) → option_from_dict python (cast_json_dict (some (option_to_dict o))) ≡ ok o
  unfolding option_from_dict option_to_dict text_at required get ◌==◌ str_json lit cast_json_dict
      field_dict object_fields
  option_round o = refl

  question_round :
      (q : SurveyQuestion)
      → question_from_dict python (cast_json_dict (some (question_to_dict q))) ≡ ok q
  unfolding question_from_dict question_to_dict text_at required get ◌==◌ str_json lit
      cast_json_dict flag truth field_dict object_fields
  question_round q =
      rw
        (
          read_list option_to_dict q.options,
          map_result-back (λ o. Unit) _ option_to_dict (λ o h. option_round o) q.options
              (All-Unit q.options),
        )
        refl

  action_round :
      (a : CallbackAction)
      → action_from_dict python (cast_json_dict (some (action_to_dict a))) ≡ ok a
  unfolding action_from_dict action_to_dict text_at required get ◌==◌ str_json lit cast_json_dict
      flag truth field_dict object_fields
  action_round a = refl

  answers_round :
      (d : Dict (List Text))
      → dict_items
          (λ x. ok (map (str_json python) (cast_json_list (some x))))
          (map (at_key (json_list string)) d)
        ≡ ok d
  answers_round d = dict_items-back (λ o. Unit) _ (json_list string) list_round d (All-Unit d)
    where
      list_round :
          (xs : List Text)
          → Unit {0}
          → ok (map (str_json python) (cast_json_list (some (json_list string xs)))) ≡ ok xs
      list_round xs h = rw (read_list string xs, str_json-string xs) refl

  pub session_round :
      (s : SurveySession)
      → Clean s.completed_at
      → session_from_dict python (cast_json_dict (some (session_to_dict s))) ≡ ok s
  unfolding session_from_dict session_to_dict text_at int_at parse_int required get ◌==◌ str_json
      lit cast_json_dict field_dict object_fields
  session_round s h =
      rw
        (
          read_list question_to_dict s.questions,
          map_result-back (λ o. Unit) _ question_to_dict (λ o h. question_round o) s.questions
              (All-Unit s.questions),
          read_object (json_list string) s.answers,
          answers_round s.answers,
          read_object action_to_dict s.callback_actions,
          dict_items-back (λ o. Unit) (λ x. action_from_dict python (cast_json_dict (some x)))
              action_to_dict (λ a h. action_round a) s.callback_actions
              (All-Unit s.callback_actions),
          read_list number s.outbound_message_ids,
          map_result-back (λ o. Unit) _ number (λ n h. refl) s.outbound_message_ids
              (All-Unit s.outbound_message_ids),
          optional-Clean s.completed_at h,
        )
        refl

  entry_round :
      (e : TranscriptEntry)
      → Clean e.session_id
      → entry_from_dict python (cast_json_dict (some (entry_to_dict e))) ≡ ok e
  unfolding entry_from_dict entry_to_dict text_at int_at parse_int required get ◌==◌ str_json lit
      cast_json_dict field_dict object_fields
  entry_round e h = rw (optional-Clean e.session_id h, field_dict-object_fields e.structured) refl

  -- A listener state whose optional texts are stripped and not empty is read back from the JSON that
  -- is written for it: sessions, answers, button actions, transcript and all.
  pub state_from_dict-to_dict :
      (s : ListenerState)
      → IsClean s
      → state_from_dict python (cast_json_dict (some (state_to_dict s))) ≡ ok s
  unfolding state_from_dict state_to_dict parse_int get ◌==◌ str_json lit cast_json_dict field_dict
      object_fields
  state_from_dict-to_dict s h =
      rw
        (
          or_zero-number s.last_update_id,
          read_object session_to_dict s.sessions,
          dict_items-back (λ x. Clean x.completed_at)
              (λ x. session_from_dict python (cast_json_dict (some x))) session_to_dict
              session_round s.sessions h.sessions,
          read_object string s.active_session_by_user,
          dict_items-back (λ o. Unit) (λ x. ok (str_json python x)) string (λ t h. refl)
              s.active_session_by_user (All-Unit s.active_session_by_user),
          read_list entry_to_dict s.transcript,
          map_result-back (λ x. Clean x.session_id)
              (λ x. entry_from_dict python (cast_json_dict (some x))) entry_to_dict entry_round
              s.transcript h.transcript,
        )
        refl
