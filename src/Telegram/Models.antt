-- ===== src/Telegram/Models.antt =====
-- telegram_bot_listener/models.py: what the listener keeps.
use orchestra_threads.Prelude.{ℕ, Bool, Option, List, []}
use orchestra_threads.Text.{Text}
use orchestra_threads.Json.{Json}
use orchestra_threads.Dict.{Dict}

pub record SurveyOption : Type 0 where
  pub option_id : Text
  pub label : Text

pub record SurveyQuestion : Type 0 where
  pub question_id : Text
  pub text : Text
  pub multi_select : Bool
  pub options : List SurveyOption

pub record CallbackAction : Type 0 where
  pub session_id : Text
  pub question_id : Text
  pub option_id : Text
  pub option_label : Text
  pub multi_select : Bool

pub record SurveySession : Type 0 where
  pub session_id : Text
  pub title : Text
  pub telegram_user_id : ℕ
  pub chat_id : ℕ
  pub status : Text
  pub created_at : Text
  pub completed_at : Option Text
  pub questions : List SurveyQuestion
  pub answers : Dict (List Text)
  pub callback_actions : Dict CallbackAction
  pub outbound_message_ids : List ℕ

pub record TranscriptEntry : Type 0 where
  pub entry_id : Text
  pub session_id : Option Text
  pub telegram_user_id : ℕ
  pub chat_id : ℕ
  pub timestamp : Text
  pub actor : Text
  pub kind : Text
  pub text : Text
  pub structured : Dict Json

pub record ListenerState : Type 0 where
  pub last_update_id : ℕ
  pub sessions : Dict SurveySession
  pub active_session_by_user : Dict Text
  pub transcript : List TranscriptEntry

abbrev pub empty_state : ListenerState
empty_state = record {
  last_update_id = 0;
  sessions = [];
  active_session_by_user = [];
  transcript = [];
}

pub record SelectionResult : Type 0 where
  pub session_id : Text
  pub question_id : Text
  pub option_id : Text
  pub option_label : Text
  pub selected : Bool
