-- ===== src/Tasks/Rows.antt =====
-- task_registry/schema.sql: the three tables. Ids are valid UUIDs as texts, and times are numbers. An
-- id that the database draws and `NOW()` are arguments of the statements.
use orchestra_threads.Prelude.{ℕ, Bool, Option, List}
use orchestra_threads.Text.{Text}
use orchestra_threads.Json.{Json}

pub record Task : Type 0 where
  pub task_id : Text
  pub title : Text
  pub description : Option Text
  pub status : Text
  pub assignee : Option Text
  pub created_by : Text
  pub priority : Text
  pub acceptance_criteria : Option Text
  pub linked_thread_id : Option Text
  pub blocked_by : List Text
  pub artifacts : List Json
  pub created_at : ℕ
  pub updated_at : ℕ

pub record ChecklistItem : Type 0 where
  pub item_id : Text
  pub task_id : Text
  pub label : Text
  pub checked : Bool
  pub checked_by : Option Text
  pub checked_at : Option ℕ
  pub sort_order : ℕ

-- `artifacts` is the JSON value that the column holds.
pub record TaskComment : Type 0 where
  pub comment_id : Text
  pub task_id : Text
  pub author : Text
  pub body : Text
  pub artifacts : Json
  pub created_at : ℕ

pub record Registry : Type 0 where
  pub tasks : List Task
  pub items : List ChecklistItem
  pub comments : List TaskComment
