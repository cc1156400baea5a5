-- ===== src/Telegram/Sessions.antt =====
-- telegram_bot_listener/state_store_parts/sessions.py: survey sessions. A session that is found comes
-- with the key under which the state holds it, since the callers change it in place. `uuid.uuid4()`
-- and `utc_now_iso()` are arguments; `token n` is the n-th token of the uuid calls.
use orchestra_threads.Prelude.{
  ℕ, suc, ◌+◌, Bool, true, false, Option, none, some, List, [], ◌∷◌, ◌++◌, Result, Exec, check,
  value_error, not, is_some, length, if◌then◌else◌,
}
use mathlib.Core.Option
use orchestra_threads.Text.{Text, ◌==◌, lit, is_empty}
use orchestra_threads.Text.Decimal.{str_int}
use orchestra_threads.Sql.{exists_row}
use orchestra_threads.Dict.{Dict, get, put}
use orchestra_threads.Json.{Python, cast_json_dict}
use orchestra_threads.Telegram.Models.{
  SurveyOption, SurveyQuestion, CallbackAction, SurveySession, ListenerState,
}
use orchestra_threads.Telegram.Codec.{session_to_dict, session_from_dict}

pub record SessionCreateRequest : Type 0 where
  pub title : Text
  pub telegram_user_id : ℕ
  pub chat_id : ℕ
  pub questions : List SurveyQuestion

module _ (token : ℕ → Text) (session_id : Text) where
  abbrev pub action_of : SurveyQuestion → SurveyOption → CallbackAction
  action_of q o = record {
    session_id = session_id;
    question_id = q.question_id;
    option_id = o.option_id;
    option_label = o.label;
    multi_select = q.multi_select;
  }

  -- The comprehension over the options, from the n-th token on, into `actions`.
  unfoldable pub option_actions :
      SurveyQuestion → ℕ → List SurveyOption → Dict CallbackAction → Dict CallbackAction
  unfolding put
  option_actions q n [] actions = actions
  option_actions q n (o ∷ os) actions =
      option_actions q (suc n) os (put (token n) (action_of q o) actions)

  unfoldable pub question_actions : SurveyQuestion → ℕ → Dict CallbackAction
  unfolding option_actions
  question_actions q n = option_actions q n q.options []

  -- `actions.update(more)`
  unfoldable pub merged : Dict CallbackAction → Dict CallbackAction → Dict CallbackAction
  unfolding put
  merged actions [] = actions
  merged actions ((k, a) ∷ more) = merged (put k a actions) more

  unfoldable pub build : ℕ → List SurveyQuestion → Dict CallbackAction → Dict CallbackAction
  unfolding question_actions merged
  build n [] actions = actions
  build n (q ∷ qs) actions = build (n + length q.options) qs (merged actions (question_actions q n))

unfoldable pub ensure_no_active_session : {S : Type 0} → ListenerState → ℕ → Exec S (Unit {0})
unfolding lit
ensure_no_active_session state telegram_user_id =
    check (not (is_some (get (str_int telegram_user_id) state.active_session_by_user)))
      (value_error (lit "An active survey session already exists for this user"))

abbrev pub active_status : Text
unfolding lit
active_status = lit "active"

abbrev pub completed_status : Text
unfolding lit
completed_status = lit "completed"

abbrev pub new_session : (ℕ → Text) → Text → Text → SessionCreateRequest → SurveySession
new_session token session_id now request = record {
  session_id = session_id;
  title = request.title;
  telegram_user_id = request.telegram_user_id;
  chat_id = request.chat_id;
  status = active_status;
  created_at = now;
  completed_at = none;
  questions = request.questions;
  answers = [];
  callback_actions = build token session_id 0 request.questions [];
  outbound_message_ids = [];
}

-- The session is read from the object that is written for it.
unfoldable pub create_session :
    Python → (ℕ → Text) → Text → Text → SessionCreateRequest → Result SurveySession
create_session python token session_id now request =
    session_from_dict python
      (cast_json_dict (some (session_to_dict (new_session token session_id now request))))

unfoldable pub session_at : ListenerState → Text → Option (Text × SurveySession)
unfolding Option.bind
session_at state key = Option.bind (get key state.sessions) λ session. some (key, session)

unfoldable pub active_session : ListenerState → ℕ → Option (Text × SurveySession)
unfolding session_at Option.bind
active_session state telegram_user_id =
    Option.bind (get (str_int telegram_user_id) state.active_session_by_user) (session_at state)

unfoldable pub session_for_append : ListenerState → ℕ → Option Text → Option (Text × SurveySession)
unfolding session_at active_session
session_for_append state telegram_user_id none = active_session state telegram_user_id
session_for_append state telegram_user_id (some session_id) =
    if is_empty session_id
    then active_session state telegram_user_id
    else session_at state session_id

-- `answers.remove(option_id)`: the first occurrence.
unfoldable pub remove : Text → List Text → List Text
remove o [] = []
remove o (a ∷ answers) = let rest = remove o answers in if a == o then answers else a ∷ rest

unfoldable pub merge_multi_select_answer : List Text → Text → List Text × Bool
unfolding exists_row remove
merge_multi_select_answer answers o =
    if exists_row (λ a. a == o) answers
    then (remove o answers, false)
    else (answers ++ o ∷ [], true)

-- The answers after the merge, and whether the option is selected.
unfoldable pub merge_answer : List Text → Text → Bool → List Text × Bool
unfolding merge_multi_select_answer
merge_answer answers option_id multi_select =
    if multi_select then merge_multi_select_answer answers option_id else (option_id ∷ [], true)

unfoldable pub selection_text : Text → Bool → Text
unfolding lit
selection_text option_label selected =
    if selected then lit "Selected: " ++ option_label else lit "Removed: " ++ option_label
