-- ===== src/Examples/Survey.antt =====
-- The theorems on telegram_bot_listener, at a survey with one question.
use orchestra_threads.Prelude.{min}
use orchestra_threads.Telegram.Sessions.{active_session}
use orchestra_threads.Prelude.{
  ℕ, ◌<◌, max, ◌≡◌, refl, Bool, true, false, none, some, List, [], ◌∷◌, ◌++◌, ok, length, All,
  if◌then◌else◌,
}
use orchestra_threads.Text.{Text, ◌==◌, lit, strip}
use orchestra_threads.Text.Decimal.{str_int, str_int_inj}
use orchestra_threads.Dict.{Dict, get}
use orchestra_threads.Json.{
  Json, number, string, new_object, field_dict, object_fields, item_list, array_items, Python,
  cast_json_dict, parse_int, truth,
}
use orchestra_threads.Sql.{exists_row}
use orchestra_threads.Telegram.Models.{SurveyQuestion, SurveySession, TranscriptEntry, empty_state}
use orchestra_threads.Telegram.Codec.{session_from_dict, state_to_dict, state_from_dict, or_zero}
use orchestra_threads.Telegram.RoundTrip.{IsClean, state_from_dict-to_dict}
use orchestra_threads.Telegram.Sessions.{
  SessionCreateRequest, active_status, build, new_session, merge_answer,
}
use orchestra_threads.Telegram.History.{HistoryViewRequest, history_view, matching_entries}
use orchestra_threads.Telegram.StateStore.{
  StateStore, Fresh, OutboundMessage, empty_store, create_survey_session, finish_active_session,
  record_outbound_message, completed,
}
use orchestra_threads.Telegram.Change.{Grows}
use orchestra_threads.Telegram.Runs.{
  Run, stay, after, create, finish, one_active_session, append_only,
}
use orchestra_threads.Telegram.Answers.{is_answer, Merged, merge_answer_lem}
use orchestra_threads.Telegram.Views.{Shown, history_view_is_own}
use orchestra_threads.Telegram.Updates.{
  Settings, World, dict_of, int_of, extract_user_id, is_allowed, process_update,
  mark_processed_update, finish_done_command, next_offset,
}
use orchestra_threads.Telegram.Acknowledged.{processed_is_acknowledged}
use orchestra_threads.Telegram.Strangers.{stranger_changes_nothing}
use orchestra_threads.Telegram.Payloads.{Button, question_buttons}
use orchestra_threads.Telegram.Buttons.{Each, IsRowOf, options_of, new_survey_has_buttons}
use orchestra_threads.Telegram.Done.{sent, second_done_publishes_nothing}

abbrev python : Python
python = record { int_of_text = λ s. none; str_of_container = λ x. [] }

abbrev question : SurveyQuestion
unfolding lit
question = record {
  question_id = lit "q";
  text = lit "?";
  multi_select = false;
  options = record { option_id = lit "y"; label = lit "Y" } ∷ [];
}

abbrev request : SessionCreateRequest
unfolding lit
request = record { title = lit "t"; telegram_user_id = 7; chat_id = 7; questions = question ∷ [] }

abbrev fresh : Fresh
unfolding lit
fresh = record { entry_id = lit "e"; now = lit "now"; session_id = lit "s"; token = str_int }

abbrev open_store : StateStore
open_store = (create_survey_session python fresh request empty_store).1

abbrev closed_store : StateStore
unfolding lit
closed_store = (finish_active_session fresh 7 7 (lit "/done") open_store).1

opened : Run python empty_store open_store
unfolding get
opened = after stay (create fresh request empty_store refl)

closing : Run python empty_store closed_store
unfolding finish_active_session closed_store
closing = after opened (finish fresh 7 7 (lit "/done") open_store)

abbrev session : SurveySession
unfolding lit
session = record {
  session_id = lit "s";
  title = lit "t";
  telegram_user_id = 7;
  chat_id = 7;
  status = active_status;
  created_at = lit "now";
  completed_at = none;
  questions = question ∷ [];
  answers = [];
  callback_actions =
      (
        lit "0",
        record {
          session_id = lit "s";
          question_id = lit "q";
          option_id = lit "y";
          option_label = lit "Y";
          multi_select = false;
        },
      )
      ∷ [];
  outbound_message_ids = [];
}

held : get (lit "s") open_store.state.sessions ≡ some session
unfolding get create_survey_session session_from_dict field_dict object_fields ◌==◌ item_list
    array_items build strip str_int lit session
held = refl

abbrev over : SurveySession
over = completed fresh.now session

one_active_session_example :
    (lit "s" ≡ lit "s") × (get (str_int 7) open_store.state.active_session_by_user ≡ some (lit "s"))
unfolding lit session
one_active_session_example =
    one_active_session (lit "s") (lit "s") session session opened held held refl refl refl

-- A message sent about the survey after its end.
abbrev later_store : StateStore
unfolding lit
later_store = (record_outbound_message fresh late closed_store).1
  where
    late : OutboundMessage
    late = record {
      telegram_user_id = 7;
      chat_id = 7;
      kind = lit "message";
      text = lit "m";
      structured = [];
      session_id = some (lit "s");
      message_id = 3;
    }

append_only_example : Grows empty_state closed_store.state
append_only_example = append_only closing

open_store-IsClean : IsClean open_store.state
unfolding create_survey_session session_from_dict field_dict object_fields ◌==◌ item_list
    array_items build strip str_int lit session get
open_store-IsClean = record { sessions = (tt, tt); transcript = tt }

state_from_dict-to_dict_example :
    state_from_dict python (cast_json_dict (some (state_to_dict open_store.state)))
    ≡ ok open_store.state
state_from_dict-to_dict_example = state_from_dict-to_dict python open_store.state open_store-IsClean

abbrev settings : Settings
settings = record {
  python = python;
  remote = record { publish_error = λ s. none; answer_error = λ i t. none };
  allowed_user_ids = 7 ∷ [];
}

-- `/done` of a user.
abbrev done_of : ℕ → Dict Json
unfolding lit
done_of user =
    (lit "update_id", number 5)
    ∷ (
      lit "message",
      new_object (
          (
            lit "chat",
            new_object ((lit "type", string (lit "private")) ∷ (lit "id", number user) ∷ []),
          )
          ∷ (lit "from", new_object ((lit "id", number user) ∷ []))
          ∷ (lit "text", string (lit "/done"))
          ∷ []),
    )
    ∷ []

abbrev world : World
world = record { store = open_store; published = []; answers = [] }

stranger_changes_nothing_example :
    process_update settings fresh (done_of 8) world
    ≡ mark_processed_update settings (done_of 8) world
unfolding dict_of get field_dict object_fields lit ◌==◌ done_of is_allowed extract_user_id int_of
    exists_row
stranger_changes_nothing_example = stranger_changes_nothing settings fresh (done_of 8) world refl

processed_is_acknowledged_example :
    5 < next_offset (process_update settings fresh (done_of 7) world).1.store
unfolding get lit ◌==◌ done_of or_zero truth parse_int
processed_is_acknowledged_example =
    processed_is_acknowledged settings fresh (done_of 7) 5 world refl

second_done_publishes_nothing_example :
    let v = (finish_done_command settings fresh 7 7 (lit "/done") world).1 in
    (v.published ≡ world.published ++ sent settings fresh.now (active_session world.store.state 7))
    × ((finish_done_command settings fresh 7 7 (lit "/done") v).0 ≡ ok tt)
    × ((finish_done_command settings fresh 7 7 (lit "/done") v).1.published ≡ v.published)
second_done_publishes_nothing_example =
    second_done_publishes_nothing settings fresh fresh 7 7 7 (lit "/done") (lit "/done") world

merge_answer_example :
    ((merge_answer (lit "x" ∷ []) (lit "y") false).0 ≡ lit "y" ∷ [])
    × (is_answer (lit "y") (merge_answer (lit "x" ∷ []) (lit "y") true).0
        ≡ (if is_answer (lit "y") (lit "x" ∷ []) then false else true))
    × ((p : Text)
        → (lit "y" == p) ≡ false
        → is_answer p (merge_answer (lit "x" ∷ []) (lit "y") true).0 ≡ is_answer p (lit "x" ∷ []))
    × ((multi_select : Bool)
        → Merged (lit "y") (merge_answer (lit "x" ∷ []) (lit "y") multi_select))
unfolding exists_row
merge_answer_example = merge_answer_lem (lit "x" ∷ []) (lit "y") (refl, tt)

abbrev view : HistoryViewRequest
view = record { telegram_user_id = 7; session_id = none; limit = 2 }

history_view_is_own_example :
    let shown = history_view closed_store.state view in
    (length shown.entries ≡ min (max 1 2) (length (matching_entries closed_store.state 7 none)))
    × All (Shown 7) shown.entries
    × ((earlier : List TranscriptEntry) × (matching_entries closed_store.state 7 none
          ≡ earlier ++ shown.entries))
    × ((x : SurveySession) → shown.session ≡ some x → x.telegram_user_id ≡ 7)
history_view_is_own_example = history_view_is_own view closing

new_survey_has_buttons_example :
    let made = new_session str_int (lit "s") (lit "now") request in
    (rows : List (List Button)) × (question_buttons made (lit "q") ≡ ok rows)
    × Each (IsRowOf made.callback_actions (lit "q")) (options_of (lit "q") request.questions) rows
new_survey_has_buttons_example =
    new_survey_has_buttons str_int (lit "s") (lit "now") request (lit "q") str_int_inj
