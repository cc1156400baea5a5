-- ===== src/Telegram/StateStore.antt =====
-- telegram_bot_listener/state_store.py: the operations on the listener's state, each under the lock
-- from its start to its end, and the file that each of them writes. The file is the JSON value that
-- its text stands for. The ids and times that an operation draws are its argument `fresh`.
use orchestra_threads.Prelude.{
  ℕ, max, Bool, Option, none, some, List, [], ◌∷◌, ◌++◌, ok, Exec, ◌>>=◌, ◌>>◌, pure, lift, gets,
  modify, coalesce,
}
use mathlib.Core.Option
use orchestra_threads.Text.{Text, lit}
use orchestra_threads.Text.Decimal.{str_int}
use orchestra_threads.Dict.{Dict, get, put, pop}
use orchestra_threads.Json.{Json, string, boolean, Python, cast_json_dict}
use orchestra_threads.Telegram.Models.{
  CallbackAction, SurveySession, ListenerState, SelectionResult, empty_state,
}
use orchestra_threads.Telegram.Codec.{state_to_dict, state_from_dict}
use orchestra_threads.Telegram.Sessions.{
  SessionCreateRequest, ensure_no_active_session, create_session, active_session,
  session_for_append, merge_answer, selection_text, completed_status,
}
use orchestra_threads.Telegram.History.{AppendEntryRequest, append_entry}

pub record StateStore : Type 0 where
  pub state : ListenerState
  pub file : Option Json

pub record Fresh : Type 0 where
  pub entry_id : Text
  pub now : Text
  pub session_id : Text
  pub token : ℕ → Text

abbrev pub empty_store : StateStore
empty_store = record { state = empty_state; file = none }

-- `json.dumps` and `write_text`, for texts that UTF-8 can encode.
unfoldable pub persist : Exec StateStore (Unit {0})
unfolding state_to_dict
persist = modify λ store. record store { file = some (state_to_dict store.state) }

abbrev pub with_state : (ListenerState → ListenerState) → Exec StateStore (Unit {0})
with_state f = modify λ store. record store { state = f store.state }

abbrev pub with_session : Text → SurveySession → ListenerState → ListenerState
with_session key session state = record state { sessions = put key session state.sessions }

-- `start`: the file is read if it is there, and written if not. A file that is there holds JSON.
unfoldable pub start : Python → Exec StateStore (Unit {0})
unfolding persist state_from_dict cast_json_dict
start python store = elim store.file [
  | none ↦ persist store
  | some payload ↦
      (lift (state_from_dict python (cast_json_dict (some payload))) >>= λ state.
      with_state (λ _. state))
        store
]

unfoldable pub set_last_update_id : ℕ → Exec StateStore (Unit {0})
unfolding persist
set_last_update_id update_id = do
  with_state λ state. record state { last_update_id = max state.last_update_id update_id }
  persist

unfoldable pub create_survey_session :
    Python → Fresh → SessionCreateRequest → Exec StateStore SurveySession
unfolding ensure_no_active_session create_session persist
create_survey_session python fresh request = do
  state ← gets (λ store. store.state)
  ensure_no_active_session state request.telegram_user_id
  session ← lift (create_session python fresh.token fresh.session_id fresh.now request)
  with_state λ state. record state {
    sessions = put session.session_id session state.sessions;
    active_session_by_user =
        put (str_int request.telegram_user_id) session.session_id state.active_session_by_user;
  }
  persist
  pure session

pub record OutboundMessage : Type 0 where
  pub telegram_user_id : ℕ
  pub chat_id : ℕ
  pub kind : Text
  pub text : Text
  pub structured : Dict Json
  pub session_id : Option Text
  pub message_id : ℕ

unfoldable pub outbound_entry : OutboundMessage → Option Text → AppendEntryRequest
unfolding lit
outbound_entry m session_id = record {
  telegram_user_id = m.telegram_user_id;
  chat_id = m.chat_id;
  actor = lit "agent";
  kind = m.kind;
  text = m.text;
  structured = m.structured;
  session_id = session_id;
}

unfoldable pub recorded_outbound :
    Fresh → OutboundMessage → Option (Text × SurveySession) → ListenerState → ListenerState
unfolding append_entry outbound_entry
recorded_outbound fresh m none state =
    append_entry fresh.entry_id fresh.now (outbound_entry m m.session_id) state
recorded_outbound fresh m (some (key, session)) state =
    let sent : SurveySession = record session {
      outbound_message_ids = session.outbound_message_ids ++ m.message_id ∷ [];
    } in
    append_entry fresh.entry_id fresh.now (outbound_entry m (some session.session_id))
      (with_session key sent state)

unfoldable pub record_outbound_message : Fresh → OutboundMessage → Exec StateStore (Unit {0})
unfolding session_for_append recorded_outbound persist
record_outbound_message fresh m = do
  with_state λ state.
      recorded_outbound fresh m (session_for_append state m.telegram_user_id m.session_id) state
  persist

-- What a user sends: the request that the entry of a text, a selection or a command is made of.
abbrev pub user_entry : ℕ → ℕ → Text → Text → Dict Json → Option Text → AppendEntryRequest
unfolding lit
user_entry telegram_user_id chat_id kind text structured session_id = record {
  telegram_user_id = telegram_user_id;
  chat_id = chat_id;
  actor = lit "user";
  kind = kind;
  text = text;
  structured = structured;
  session_id = session_id;
}

unfoldable pub record_text_message : Fresh → ℕ → ℕ → Text → Text → Exec StateStore (Option Text)
unfolding append_entry persist
record_text_message fresh telegram_user_id chat_id text kind = do
  state ← gets (λ store. store.state)
  let session_id = get (str_int telegram_user_id) state.active_session_by_user
  with_state (
      append_entry fresh.entry_id fresh.now
        (user_entry telegram_user_id chat_id kind text [] session_id))
  persist
  pure session_id

unfoldable pub answers_of : SurveySession → Text → List Text
unfolding get
answers_of session question_id = coalesce (get question_id session.answers) []

-- The session after a button, and whether its option is selected now.
unfoldable pub answered : SurveySession → CallbackAction → SurveySession × Bool
unfolding answers_of merge_answer put
answered session action =
    let (answers, selected) =
      merge_answer (answers_of session action.question_id) action.option_id action.multi_select in
    (record session { answers = put action.question_id answers session.answers }, selected)

unfoldable pub selection_entry : ℕ → ℕ → CallbackAction → Bool → Text → AppendEntryRequest
unfolding lit selection_text
selection_entry telegram_user_id chat_id action selected session_id =
    user_entry telegram_user_id chat_id (lit "button_selection")
      (selection_text action.option_label selected)
      ((lit "question_id", string action.question_id)
        ∷ (lit "option_id", string action.option_id)
        ∷ (lit "selected", boolean selected)
        ∷ [])
      (some session_id)

-- The active session of a user and the action of a button in it.
unfoldable pub pressed : ListenerState → ℕ → Text → Option (Text × SurveySession × CallbackAction)
unfolding active_session get Option.bind
pressed state telegram_user_id callback_data =
    Option.bind (active_session state telegram_user_id) λ found.
      Option.bind (get callback_data found.1.callback_actions)
        λ action. some (found.0, found.1, action)

unfoldable pub select_option :
    Fresh → ℕ → ℕ → Text → SurveySession → CallbackAction → Exec StateStore (Option SelectionResult)
unfolding answered selection_entry append_entry persist
select_option fresh telegram_user_id chat_id key session action = do
  let (session', selected) = answered session action
  with_state λ state.
      append_entry fresh.entry_id fresh.now
        (selection_entry telegram_user_id chat_id action selected session.session_id)
        (with_session key session' state)
  persist
  pure (
      some (record {
        session_id = session.session_id;
        question_id = action.question_id;
        option_id = action.option_id;
        option_label = action.option_label;
        selected = selected;
      }))

unfoldable pub record_selection : Fresh → ℕ → ℕ → Text → Exec StateStore (Option SelectionResult)
unfolding pressed select_option
record_selection fresh telegram_user_id chat_id callback_data store =
    elim (pressed store.state telegram_user_id callback_data) [
      | none ↦ (ok none, store)
      | some p ↦ select_option fresh telegram_user_id chat_id p.0 p.1 p.2 store
    ]

abbrev pub completed : Text → SurveySession → SurveySession
completed now session = record session { status = completed_status; completed_at = some now }

unfoldable pub finish_session :
    Fresh → ℕ → ℕ → Text → Option (Text × SurveySession) → Exec StateStore (Option SurveySession)
unfolding append_entry lit persist
finish_session fresh telegram_user_id chat_id command none = do
  with_state (
      append_entry fresh.entry_id fresh.now
        (user_entry telegram_user_id chat_id (lit "command") command [] none))
  persist
  pure none
finish_session fresh telegram_user_id chat_id command (some (key, session)) = do
  with_state (
      append_entry fresh.entry_id fresh.now
        (user_entry telegram_user_id chat_id (lit "command") command [] (some session.session_id)))
  with_state λ state. record state {
    sessions = put key (completed fresh.now session) state.sessions;
    active_session_by_user = pop (str_int telegram_user_id) state.active_session_by_user;
  }
  persist
  pure (some (completed fresh.now session))

unfoldable pub finish_active_session : Fresh → ℕ → ℕ → Text → Exec StateStore (Option SurveySession)
unfolding active_session finish_session
finish_active_session fresh telegram_user_id chat_id command store =
    finish_session fresh telegram_user_id chat_id command
      (active_session store.state telegram_user_id) store
