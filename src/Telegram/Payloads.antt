-- ===== src/Telegram/Payloads.antt =====
-- telegram_bot_listener/http_payloads.py: what a request asks for, and the buttons of a question.
use orchestra_threads.Prelude.{
  ℕ, Bool, ◌&&◌, Option, none, some, List, [], ◌∷◌, ◌++◌, Result, ok, err, value_error,
  if◌then◌else◌,
}
use orchestra_threads.Prelude.Fallible.{◌>>=◌, map_result}
use orchestra_threads.Text.{Text, ◌==◌, lit, is_empty}
use orchestra_threads.Dict.{Dict, get}
use orchestra_threads.Json.{
  Json, null, boolean, number, string, array, object, nothing, item, item_list, Python,
  cast_json_dict, stripped_text,
}
use orchestra_threads.Telegram.Models.{SurveyOption, SurveyQuestion, CallbackAction, SurveySession}
use orchestra_threads.Telegram.Codec.{flag}
use orchestra_threads.Telegram.Updates.{int_of, dict_of}

-- `{"text": …, "callback_data": …}`
pub record Button : Type 0 where
  pub text : Text
  pub callback_data : Text

unfoldable pub required_user_id : Dict Json → Result ℕ
unfolding int_of get lit
required_user_id payload = elim (int_of (get (lit "telegram_user_id") payload)) [
  | none ↦ err (value_error (lit "telegram_user_id is required"))
  | some n ↦ ok n
]

-- `isinstance(value, list)` with an item in it.
unfoldable pub some_items : Option Json → Option (List Json)
unfolding item_list
some_items none = none
some_items (some null) = none
some_items (some (boolean b)) = none
some_items (some (number n)) = none
some_items (some (string s)) = none
some_items (some (array nothing)) = none
some_items (some (array (item x xs))) = some (x ∷ item_list xs)
some_items (some (object d)) = none

unfoldable pub items_or_raise : Text → Option Json → Result (List Json)
unfolding some_items
items_or_raise message value = elim (some_items value) [
  | none ↦ err (value_error message)
  | some xs ↦ ok xs
]

module _ (python : Python) where
  unfoldable pub required_text : Text → Dict Json → Result Text
  unfolding stripped_text get lit
  required_text field_name payload =
      let text = stripped_text python (get field_name payload) in
      if is_empty text then err (value_error (field_name ++ lit " is required")) else ok text

  unfoldable pub button : Json → Result Button
  unfolding required_text dict_of lit
  button raw_button = elim (dict_of (some raw_button)) [
    | none ↦ err (value_error (lit "button entries must be objects"))
    | some payload ↦ required_text (lit "text") payload >>= λ text.
        required_text (lit "id") payload >>= λ callback_data.
        ok (record { text = text; callback_data = callback_data })
  ]

  unfoldable pub button_row : Json → Result (List Button)
  unfolding items_or_raise button map_result lit
  button_row raw_row =
      items_or_raise (lit "buttons rows must be non-empty arrays") (some raw_row) >>= λ xs.
      map_result button xs

  unfoldable pub parse_buttons : Dict Json → Result (List (List Button))
  unfolding items_or_raise button_row map_result get lit
  parse_buttons payload =
      items_or_raise (lit "buttons is required") (get (lit "buttons") payload) >>= λ rows.
      map_result button_row rows

  unfoldable pub payload_option : Dict Json → Result SurveyOption
  unfolding required_text lit
  payload_option payload = do
    option_id ← required_text (lit "id") payload
    label ← required_text (lit "label") payload
    ok (record { option_id = option_id; label = label })

  unfoldable pub payload_question : Dict Json → Result SurveyQuestion
  unfolding items_or_raise required_text payload_option map_result flag cast_json_dict get lit
  payload_question payload = do
    raw_options ← items_or_raise (lit "question options are required") (get (lit "options") payload)
    question_id ← required_text (lit "question_id") payload
    text ← required_text (lit "text") payload
    options ← map_result (λ x. payload_option (cast_json_dict (some x))) raw_options
    ok (record {
      question_id = question_id;
      text = text;
      multi_select = flag (lit "multi_select") payload;
      options = options;
    })

  unfoldable pub parse_questions : Dict Json → Result (List SurveyQuestion)
  unfolding items_or_raise payload_question map_result cast_json_dict get lit
  parse_questions payload =
      items_or_raise (lit "questions is required") (get (lit "questions") payload) >>= λ questions.
      map_result (λ x. payload_question (cast_json_dict (some x))) questions

unfoldable pub is_for : Text → Text → CallbackAction → Bool
is_for question_id option_id action =
    action.question_id == question_id && action.option_id == option_id

unfoldable pub token_of : Dict CallbackAction → Text → Text → Result Text
unfolding is_for lit
token_of [] question_id option_id = err (value_error (lit "callback token not found"))
token_of ((token, action) ∷ actions) question_id option_id =
    let rest = token_of actions question_id option_id in
    if is_for question_id option_id action then ok token else rest

unfoldable pub question_rows :
    Dict CallbackAction → SurveyQuestion → Text → Result (List (List Button))
unfolding token_of map_result
question_rows actions question question_id =
    map_result
      (λ (o : SurveyOption). token_of actions question_id o.option_id >>= λ token.
        ok (record { text = o.label; callback_data = token } ∷ []))
      question.options

unfoldable pub buttons_of :
    Dict CallbackAction → List SurveyQuestion → Text → Result (List (List Button))
unfolding question_rows
buttons_of actions [] question_id = ok []
buttons_of actions (q ∷ questions) question_id =
    let rest = buttons_of actions questions question_id in
    if q.question_id == question_id
    then (question_rows actions q question_id >>= λ rows. rest >>= λ more. ok (rows ++ more))
    else rest

unfoldable pub question_buttons : SurveySession → Text → Result (List (List Button))
unfolding buttons_of
question_buttons session question_id =
    buttons_of session.callback_actions session.questions question_id
