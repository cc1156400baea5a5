-- ===== src/Telegram/Updates.antt =====
-- telegram_bot_listener/update_filters.py, update_state_interactions.py, update_message_processing.py,
-- update_callback_processing.py, update_processor_runtime.py, update_polling.py: what an update from
-- Telegram does. `remote` says how the events engine and the Bot API answer.
use orchestra_threads.Prelude.{
  ℕ, ◌+◌, Bool, true, false, Option, none, some, List, [], ◌∷◌, ◌++◌, Error, Exec, ◌>>=◌, ◌>>◌,
  pure, raise, lift, modify, eqb, if◌then◌else◌, not,
}
use mathlib.Core.Option
use orchestra_threads.Text.{Text, ◌==◌, lit}
use orchestra_threads.Sql.{exists_row}
use orchestra_threads.Dict.{Dict, get}
use orchestra_threads.Json.{
  Json, null, boolean, number, string, array, object, field_dict, Python, cast_json_dict, str_json,
  optional_json_text, parse_int,
}
use orchestra_threads.Telegram.Models.{SurveySession, SelectionResult}
use orchestra_threads.Telegram.Codec.{or_zero}
use orchestra_threads.Telegram.StateStore.{
  StateStore, Fresh, set_last_update_id, record_text_message, record_selection,
  finish_active_session,
}

pub record Remote : Type 0 where
  pub publish_error : SurveySession → Option Error
  pub answer_error : Text → Text → Option Error

pub record Settings : Type 0 where
  pub python : Python
  pub remote : Remote
  pub allowed_user_ids : List ℕ

-- The store, the completed surveys that the events engine has taken, and the answered buttons.
pub record World : Type 0 where
  pub store : StateStore
  pub published : List SurveySession
  pub answers : List (Text × Text)

unfoldable pub in_store : {A : Type 0} → Exec StateStore A → Exec World A
in_store m w = let (r, store) = m w.store in (r, record w { store = store })

-- `isinstance(value, dict)`
unfoldable pub dict_of : Option Json → Option (Dict Json)
dict_of none = none
dict_of (some null) = none
dict_of (some (boolean b)) = none
dict_of (some (number n)) = none
dict_of (some (string s)) = none
dict_of (some (array xs)) = none
dict_of (some (object d)) = some (field_dict d)

-- `isinstance(value, int)`: a `bool` is an `int`.
unfoldable pub int_of : Option Json → Option ℕ
int_of none = none
int_of (some null) = none
int_of (some (boolean b)) = some (if b then 1 else 0)
int_of (some (number n)) = some n
int_of (some (string s)) = none
int_of (some (array xs)) = none
int_of (some (object d)) = none

unfoldable pub extract_user_id : Option Json → Option ℕ
unfolding dict_of int_of get lit Option.bind
extract_user_id raw_user = Option.bind (dict_of raw_user) λ d. int_of (get (lit "id") d)

-- The value of a missing key is `None`.
abbrev pub or_none : Option Json → Json
or_none none = null
or_none (some x) = x

unfoldable pub is_empty_dict : Dict Json → Bool
is_empty_dict [] = true
is_empty_dict (x ∷ d) = false

-- A guard that returns early, and one on a value that may be `None`.
unfoldable pub when : Bool → Exec World (Unit {0}) → Exec World (Unit {0})
when true m = m
when false m = pure tt

unfoldable pub given : {A : Type 0} → Option A → (A → Exec World (Unit {0})) → Exec World (Unit {0})
given none f = pure tt
given (some a) f = f a

-- A request that may fail, and what it leaves if it does not.
unfoldable pub posted : Option Error → (World → World) → Exec World (Unit {0})
posted none f = modify f
posted (some e) f = raise e

module _ (settings : Settings) where
  unfoldable pub is_private_chat : Dict Json → Bool
  unfolding str_json get lit
  is_private_chat chat = str_json settings.python (or_none (get (lit "type") chat)) == lit "private"

  -- `telegram_user_id is None or telegram_user_id not in allowed_user_ids`, the other way round.
  unfoldable pub is_allowed : Option ℕ → Bool
  unfolding exists_row
  is_allowed none = false
  is_allowed (some user) = exists_row (eqb user) settings.allowed_user_ids

  unfoldable pub mark_if : ℕ → Exec StateStore (Unit {0})
  unfolding set_last_update_id
  mark_if update_id = if eqb update_id 0 then pure tt else set_last_update_id update_id

  unfoldable pub mark_processed_update : Dict Json → Exec World (Unit {0})
  unfolding parse_int or_zero get lit in_store mark_if
  mark_processed_update update = do
    update_id ← lift (parse_int settings.python (or_zero (get (lit "update_id") update)))
    in_store (mark_if update_id)

  unfoldable pub publish_survey_finished : SurveySession → Exec World (Unit {0})
  unfolding posted
  publish_survey_finished session =
      posted (settings.remote.publish_error session)
        λ w. record w { published = w.published ++ session ∷ [] }

  unfoldable pub finish_done_command : Fresh → ℕ → ℕ → Text → Exec World (Unit {0})
  unfolding in_store finish_active_session given publish_survey_finished
  finish_done_command fresh user chat command = do
    session ← in_store (finish_active_session fresh user chat command)
    given session publish_survey_finished

  unfoldable pub take_text : Fresh → ℕ → ℕ → Text → Exec World (Unit {0})
  unfolding in_store finish_done_command record_text_message lit
  take_text fresh user chat text =
      if text == lit "/done"
      then finish_done_command fresh user chat text
      else (in_store (record_text_message fresh user chat text (lit "text")) >> pure tt)

  unfoldable pub take_message : Fresh → ℕ → Dict Json → Text → Exec World (Unit {0})
  unfolding take_text parse_int get lit
  take_message fresh user chat text = do
    chat_id ← lift (parse_int settings.python (or_none (get (lit "id") chat)))
    take_text fresh user chat_id text

  unfoldable pub process_message : Fresh → Dict Json → Exec World (Unit {0})
  unfolding is_private_chat is_allowed extract_user_id take_message cast_json_dict get lit
      optional_json_text when given
  process_message fresh message =
      let chat = cast_json_dict (get (lit "chat") message) in
      let user = extract_user_id (get (lit "from") message) in
      when (is_private_chat chat) (
        when (is_allowed user) (
          given user λ id.
            given (optional_json_text settings.python (get (lit "text") message))
              λ text. take_message fresh id chat text))

  unfoldable pub callback_text : Option SelectionResult → Text
  unfolding lit
  callback_text none = lit "Unknown or inactive survey button"
  callback_text (some r) = lit "Selection saved"

  unfoldable pub answer_callback : Text → Option SelectionResult → Exec World (Unit {0})
  unfolding callback_text posted
  answer_callback callback_id result =
      posted (settings.remote.answer_error callback_id (callback_text result))
        λ w. record w { answers = w.answers ++ (callback_id, callback_text result) ∷ [] }

  -- The id of the query and the token of the button.
  unfoldable pub callback_identity : Dict Json → Option (Text × Text)
  unfolding optional_json_text get lit Option.bind
  callback_identity query =
      Option.bind (optional_json_text settings.python (get (lit "data") query)) λ token.
        Option.bind (optional_json_text settings.python (get (lit "id") query))
          λ callback_id. some (callback_id, token)

  -- The button of a user that the guards let through.
  unfoldable pub take_button : Fresh → ℕ → Dict Json → Text × Text → Exec World (Unit {0})
  unfolding parse_int get lit in_store record_selection answer_callback
  take_button fresh user chat (callback_id, token) = do
    chat_id ← lift (parse_int settings.python (or_none (get (lit "id") chat)))
    result ← in_store (record_selection fresh user chat_id token)
    answer_callback callback_id result

  unfoldable pub process_callback_query : Fresh → Dict Json → Exec World (Unit {0})
  unfolding extract_user_id cast_json_dict get lit callback_identity is_empty_dict is_allowed
      is_private_chat take_button when given
  process_callback_query fresh query =
      let user = extract_user_id (get (lit "from") query) in
      let message = cast_json_dict (get (lit "message") query) in
      let chat = cast_json_dict (get (lit "chat") message) in
      when (not (is_empty_dict message)) (
        given (callback_identity query) λ identity.
          when (is_allowed user)
            (when (is_private_chat chat) (given user λ id. take_button fresh id chat identity)))

  -- The objects under `callback_query` and `message`, as far as they are there.
  unfoldable pub dispatch : Fresh → Option (Dict Json) → Option (Dict Json) → Exec World (Unit {0})
  unfolding process_callback_query process_message
  dispatch fresh (some query) message = process_callback_query fresh query
  dispatch fresh none (some message) = process_message fresh message
  dispatch fresh none none = pure tt

  unfoldable pub process_update : Fresh → Dict Json → Exec World (Unit {0})
  unfolding mark_processed_update dispatch dict_of get lit
  process_update fresh update = do
    mark_processed_update update
    dispatch fresh (dict_of (get (lit "callback_query") update))
        (dict_of (get (lit "message") update))

  -- Each update with what the operations that it causes draw.
  unfoldable pub process_updates : List (Fresh × Dict Json) → Exec World (Unit {0})
  unfolding process_update
  process_updates [] = pure tt
  process_updates ((fresh, update) ∷ updates) =
      process_update fresh update >> process_updates updates

unfoldable pub next_offset : StateStore → ℕ
next_offset store = store.state.last_update_id + 1
