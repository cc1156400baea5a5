-- ===== src/Telegram/Codec.antt =====
-- telegram_bot_listener/models.py, state_store_parts/persistence.py: the state as JSON, and back.
use orchestra_threads.Prelude.{
  ℕ, Bool, false, Option, none, some, List, [], ◌∷◌, map, Result, ok, if◌then◌else◌,
}
use orchestra_threads.Prelude.Fallible.{◌>>=◌, map_result}
use orchestra_threads.Text.{Text, lit}
use orchestra_threads.Dict.{Dict, get}
use orchestra_threads.Json.{
  Json, null, boolean, number, string, array, array_items, new_object, Python, truth,
  cast_json_dict, cast_json_list, required, str_json, optional_json_text, parse_int,
}
use orchestra_threads.Telegram.Models.{
  SurveyOption, SurveyQuestion, CallbackAction, SurveySession, TranscriptEntry, ListenerState,
}

-- `asdict` of a list, a dict and an optional text.
abbrev pub json_list : {A : Type 0} → (A → Json) → List A → Json
json_list f xs = array (array_items (map f xs))

abbrev pub at_key : {A B : Type 0} → (A → B) → Text × A → Text × B
at_key f (k, a) = (k, f a)

abbrev pub json_object : {A : Type 0} → (A → Json) → Dict A → Json
json_object f d = new_object (map (at_key f) d)

abbrev pub json_text : Option Text → Json
json_text none = null
json_text (some s) = string s

unfoldable pub option_to_dict : SurveyOption → Json
unfolding lit
option_to_dict o =
    new_object ((lit "option_id", string o.option_id) ∷ (lit "label", string o.label) ∷ [])

unfoldable pub question_to_dict : SurveyQuestion → Json
unfolding option_to_dict lit
question_to_dict q = new_object (
    (lit "question_id", string q.question_id)
    ∷ (lit "text", string q.text)
    ∷ (lit "multi_select", boolean q.multi_select)
    ∷ (lit "options", json_list option_to_dict q.options)
    ∷ [])

unfoldable pub action_to_dict : CallbackAction → Json
unfolding lit
action_to_dict a = new_object (
    (lit "session_id", string a.session_id)
    ∷ (lit "question_id", string a.question_id)
    ∷ (lit "option_id", string a.option_id)
    ∷ (lit "option_label", string a.option_label)
    ∷ (lit "multi_select", boolean a.multi_select)
    ∷ [])

unfoldable pub session_to_dict : SurveySession → Json
unfolding question_to_dict action_to_dict lit
session_to_dict s = new_object (
    (lit "session_id", string s.session_id)
    ∷ (lit "title", string s.title)
    ∷ (lit "telegram_user_id", number s.telegram_user_id)
    ∷ (lit "chat_id", number s.chat_id)
    ∷ (lit "status", string s.status)
    ∷ (lit "created_at", string s.created_at)
    ∷ (lit "completed_at", json_text s.completed_at)
    ∷ (lit "questions", json_list question_to_dict s.questions)
    ∷ (lit "answers", json_object (json_list string) s.answers)
    ∷ (lit "callback_actions", json_object action_to_dict s.callback_actions)
    ∷ (lit "outbound_message_ids", json_list number s.outbound_message_ids)
    ∷ [])

unfoldable pub entry_to_dict : TranscriptEntry → Json
unfolding lit
entry_to_dict e = new_object (
    (lit "entry_id", string e.entry_id)
    ∷ (lit "session_id", json_text e.session_id)
    ∷ (lit "telegram_user_id", number e.telegram_user_id)
    ∷ (lit "chat_id", number e.chat_id)
    ∷ (lit "timestamp", string e.timestamp)
    ∷ (lit "actor", string e.actor)
    ∷ (lit "kind", string e.kind)
    ∷ (lit "text", string e.text)
    ∷ (lit "structured", new_object e.structured)
    ∷ [])

unfoldable pub state_to_dict : ListenerState → Json
unfolding session_to_dict entry_to_dict lit
state_to_dict s = new_object (
    (lit "last_update_id", number s.last_update_id)
    ∷ (lit "sessions", json_object session_to_dict s.sessions)
    ∷ (lit "active_session_by_user", json_object string s.active_session_by_user)
    ∷ (lit "transcript", json_list entry_to_dict s.transcript)
    ∷ [])

-- A dict comprehension over the items of an object: its keys are kept, and its values may raise.
unfoldable pub dict_items : {A : Type 0} → (Json → Result A) → Dict Json → Result (Dict A)
unfolding map_result
dict_items f = map_result λ (k, x). f x >>= λ a. ok (k, a)

unfoldable pub flag : Text → Dict Json → Bool
unfolding get truth
flag k d = elim (get k d) [ none ↦ false | some x ↦ truth x ]

-- `payload.get(key, 0) or 0`
unfoldable pub or_zero : Option Json → Json
or_zero none = number 0
or_zero (some x) = if truth x then x else number 0

module _ (python : Python) where
  -- `str(payload[key])` and `parse_int(payload[key])`
  unfoldable pub text_at : Text → Dict Json → Result Text
  unfolding required str_json
  text_at k d = required k d >>= λ x. ok (str_json python x)

  unfoldable pub int_at : Text → Dict Json → Result ℕ
  unfolding required parse_int
  int_at k d = required k d >>= λ x. parse_int python x

  unfoldable pub option_from_dict : Dict Json → Result SurveyOption
  unfolding text_at lit
  option_from_dict d = do
    option_id ← text_at (lit "option_id") d
    label ← text_at (lit "label") d
    ok (record { option_id = option_id; label = label })

  unfoldable pub question_from_dict : Dict Json → Result SurveyQuestion
  unfolding text_at lit flag option_from_dict cast_json_dict cast_json_list map_result
  question_from_dict d = do
    options ←
        map_result (λ x. option_from_dict (cast_json_dict (some x)))
          (cast_json_list (get (lit "options") d))
    question_id ← text_at (lit "question_id") d
    text ← text_at (lit "text") d
    ok (record {
      question_id = question_id;
      text = text;
      multi_select = flag (lit "multi_select") d;
      options = options;
    })

  unfoldable pub action_from_dict : Dict Json → Result CallbackAction
  unfolding text_at lit flag
  action_from_dict d = do
    session_id ← text_at (lit "session_id") d
    question_id ← text_at (lit "question_id") d
    option_id ← text_at (lit "option_id") d
    option_label ← text_at (lit "option_label") d
    ok (record {
      session_id = session_id;
      question_id = question_id;
      option_id = option_id;
      option_label = option_label;
      multi_select = flag (lit "multi_select") d;
    })

  unfoldable pub session_from_dict : Dict Json → Result SurveySession
  unfolding text_at int_at lit question_from_dict action_from_dict dict_items optional_json_text
  session_from_dict d = do
    session_id ← text_at (lit "session_id") d
    title ← text_at (lit "title") d
    telegram_user_id ← int_at (lit "telegram_user_id") d
    chat_id ← int_at (lit "chat_id") d
    status ← text_at (lit "status") d
    created_at ← text_at (lit "created_at") d
    questions ←
        map_result (λ x. question_from_dict (cast_json_dict (some x)))
          (cast_json_list (get (lit "questions") d))
    answers ←
        dict_items (λ x. ok (map (str_json python) (cast_json_list (some x))))
          (cast_json_dict (get (lit "answers") d))
    callback_actions ←
        dict_items (λ x. action_from_dict (cast_json_dict (some x)))
          (cast_json_dict (get (lit "callback_actions") d))
    outbound_message_ids ←
        map_result (parse_int python) (cast_json_list (get (lit "outbound_message_ids") d))
    ok (record {
      session_id = session_id;
      title = title;
      telegram_user_id = telegram_user_id;
      chat_id = chat_id;
      status = status;
      created_at = created_at;
      completed_at = optional_json_text python (get (lit "completed_at") d);
      questions = questions;
      answers = answers;
      callback_actions = callback_actions;
      outbound_message_ids = outbound_message_ids;
    })

  unfoldable pub entry_from_dict : Dict Json → Result TranscriptEntry
  unfolding text_at int_at lit optional_json_text
  entry_from_dict d = do
    entry_id ← text_at (lit "entry_id") d
    telegram_user_id ← int_at (lit "telegram_user_id") d
    chat_id ← int_at (lit "chat_id") d
    timestamp ← text_at (lit "timestamp") d
    actor ← text_at (lit "actor") d
    kind ← text_at (lit "kind") d
    text ← text_at (lit "text") d
    ok (record {
      entry_id = entry_id;
      session_id = optional_json_text python (get (lit "session_id") d);
      telegram_user_id = telegram_user_id;
      chat_id = chat_id;
      timestamp = timestamp;
      actor = actor;
      kind = kind;
      text = text;
      structured = cast_json_dict (get (lit "structured") d);
    })

  unfoldable pub state_from_dict : Dict Json → Result ListenerState
  unfolding session_from_dict entry_from_dict dict_items or_zero parse_int str_json lit
  state_from_dict d = do
    last_update_id ← parse_int python (or_zero (get (lit "last_update_id") d))
    sessions ←
        dict_items (λ x. session_from_dict (cast_json_dict (some x)))
          (cast_json_dict (get (lit "sessions") d))
    active ←
        dict_items (λ x. ok (str_json python x))
          (cast_json_dict (get (lit "active_session_by_user") d))
    transcript ←
        map_result (λ x. entry_from_dict (cast_json_dict (some x)))
          (cast_json_list (get (lit "transcript") d))
    ok (record {
      last_update_id = last_update_id;
      sessions = sessions;
      active_session_by_user = active;
      transcript = transcript;
    })
