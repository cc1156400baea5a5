-- ===== src/Telegram/History.antt =====
-- telegram_bot_listener/state_store_parts/history.py: the transcript and the view of it.
use orchestra_threads.Prelude.{
  ℕ, ◌-◌, max, Bool, true, false, zero, suc, Option, none, some, List, [], ◌∷◌, ◌++◌, length,
  if◌then◌else◌, eqb,
}
use mathlib.Core.Option
use orchestra_threads.Text.{Text, ◌==◌, lit, is_empty, strip}
use orchestra_threads.Text.Decimal.{str_int}
use orchestra_threads.Sql.{select}
use orchestra_threads.Dict.{Dict, get}
use orchestra_threads.Json.{Json, string, number, boolean, new_object}
use orchestra_threads.Telegram.Models.{SurveySession, TranscriptEntry, ListenerState}
use orchestra_threads.Telegram.Codec.{json_list, json_object, json_text, question_to_dict}

pub record AppendEntryRequest : Type 0 where
  pub telegram_user_id : ℕ
  pub chat_id : ℕ
  pub actor : Text
  pub kind : Text
  pub text : Text
  pub structured : Dict Json
  pub session_id : Option Text

pub record HistoryViewRequest : Type 0 where
  pub telegram_user_id : ℕ
  pub session_id : Option Text
  pub limit : ℕ

-- The entry that a request gives with a fresh id at a time.
abbrev pub new_entry : Text → Text → AppendEntryRequest → TranscriptEntry
new_entry entry_id now r = record {
  entry_id = entry_id;
  session_id = r.session_id;
  telegram_user_id = r.telegram_user_id;
  chat_id = r.chat_id;
  timestamp = now;
  actor = r.actor;
  kind = r.kind;
  text = r.text;
  structured = r.structured;
}

unfoldable pub append_entry : Text → Text → AppendEntryRequest → ListenerState → ListenerState
append_entry entry_id now r state = record state {
  transcript = state.transcript ++ new_entry entry_id now r ∷ [];
}

-- `optional_text` of a text.
unfoldable pub optional_text_of : Option Text → Option Text
optional_text_of none = none
optional_text_of (some s) = let text = strip s in if is_empty text then none else some text

unfoldable pub timeline_entry : TranscriptEntry → Json
unfolding lit optional_text_of
timeline_entry e = new_object (
    (lit "ts", string e.timestamp)
    ∷ (lit "actor", string e.actor)
    ∷ (lit "kind", string e.kind)
    ∷ (lit "text", string e.text)
    ∷ (lit "session_id", json_text (optional_text_of e.session_id))
    ∷ (lit "structured", new_object e.structured)
    ∷ [])

unfoldable pub survey_state : Option SurveySession → Json
unfolding lit question_to_dict
survey_state none = new_object []
survey_state (some s) = new_object (
    (lit "session_id", string s.session_id)
    ∷ (lit "title", string s.title)
    ∷ (lit "status", string s.status)
    ∷ (lit "created_at", string s.created_at)
    ∷ (lit "completed_at", json_text s.completed_at)
    ∷ (lit "answers", json_object (json_list string) s.answers)
    ∷ (lit "questions", json_list question_to_dict s.questions)
    ∷ [])

unfoldable pub of_user : ℕ → TranscriptEntry → Bool
of_user telegram_user_id e = eqb e.telegram_user_id telegram_user_id

unfoldable pub of_session : Text → TranscriptEntry → Bool
of_session session_id e = elim e.session_id [ none ↦ false | some s ↦ s == session_id ]

unfoldable pub matching_entries : ListenerState → ℕ → Option Text → List TranscriptEntry
unfolding select of_user of_session
matching_entries state telegram_user_id none = select (of_user telegram_user_id) state.transcript
matching_entries state telegram_user_id (some session_id) =
    select (of_session session_id) (select (of_user telegram_user_id) state.transcript)

unfoldable pub user_owned_session : Option SurveySession → ℕ → Option SurveySession
user_owned_session none telegram_user_id = none
user_owned_session (some s) telegram_user_id =
    if eqb s.telegram_user_id telegram_user_id then some s else none

unfoldable pub active_view_session : ListenerState → ℕ → Option SurveySession
unfolding Option.bind
active_view_session state telegram_user_id =
    Option.bind (get (str_int telegram_user_id) state.active_session_by_user)
      λ key. get key state.sessions

unfoldable pub resolve_view_session : ListenerState → ℕ → Option Text → Option SurveySession
unfolding user_owned_session active_view_session
resolve_view_session state telegram_user_id none = active_view_session state telegram_user_id
resolve_view_session state telegram_user_id (some session_id) =
    if is_empty session_id
    then active_view_session state telegram_user_id
    else user_owned_session (get session_id state.sessions) telegram_user_id

-- What `build_history_view` puts into its answer: the session and the entries.
pub record HistoryView : Type 0 where
  pub session : Option SurveySession
  pub entries : List TranscriptEntry

-- `entries[start:]`
unfoldable pub drop : {A : Type 0} → ℕ → List A → List A
drop zero xs = xs
drop (suc n) [] = []
drop (suc n) (x ∷ xs) = drop n xs

unfoldable pub history_view : ListenerState → HistoryViewRequest → HistoryView
unfolding resolve_view_session matching_entries drop
history_view state request =
    let entries = matching_entries state request.telegram_user_id request.session_id in
    let start_index = length entries - max 1 request.limit in
    record {
      session = resolve_view_session state request.telegram_user_id request.session_id;
      entries = drop start_index entries;
    }

unfoldable pub session_id_of : Option SurveySession → Option Text
session_id_of none = none
session_id_of (some s) = some s.session_id

unfoldable pub build_history_view : ListenerState → HistoryViewRequest → Json
unfolding history_view timeline_entry survey_state lit
build_history_view state request =
    let view = history_view state request in
    new_object (
      (lit "ok", boolean true)
      ∷ (lit "telegram_user_id", number request.telegram_user_id)
      ∷ (lit "session_id", json_text (session_id_of view.session))
      ∷ (lit "timeline", json_list timeline_entry view.entries)
      ∷ (lit "survey_state", survey_state view.session)
      ∷ [])
