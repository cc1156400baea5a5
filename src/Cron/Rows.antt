-- ===== src/Cron/Rows.antt =====
-- scheduler_cron/schema.sql and common.py: jobs, runs, and the choices for their columns. Times are
-- numbers, an id that `gen_random_uuid` draws is an argument of the insert, and `NOW()` is too.
use orchestra_threads.Prelude.{
  ℕ, Bool, Option, List, [], ◌∷◌, ◌++◌, Result, ok, err, runtime_error, if◌then◌else◌,
}
use orchestra_threads.Text.{Text, ◌==◌, lit, strip}
use orchestra_threads.Sql.{exists_row}
use orchestra_threads.Dict.{Dict}
use orchestra_threads.Json.{Json}

pub record Job : Type 0 where
  pub job_id : Text
  pub name : Text
  pub job_type : Text
  pub schedule : Text
  pub action_type : Text
  pub action_payload : Dict Json
  pub enabled : Bool
  pub auto_delete : Bool
  pub misfire_policy : Text
  pub created_by : Text
  pub created_at : ℕ
  pub updated_at : ℕ
  pub last_run_at : Option ℕ
  pub next_run_at : Option ℕ
  pub run_count : ℕ
  pub failure_count : ℕ
  pub metadata : Dict Json

pub record JobRun : Type 0 where
  pub run_id : Text
  pub job_id : Text
  pub started_at : ℕ
  pub finished_at : Option ℕ
  pub status : Text
  pub outcome : Option (Dict Json)
  pub error_message : Option Text
  pub duration_ms : Option ℕ

pub record CronDb : Type 0 where
  pub jobs : List Job
  pub runs : List JobRun

abbrev pub job_types : List Text
unfolding lit
job_types = lit "cron" ∷ lit "date" ∷ []

abbrev pub action_types : List Text
unfolding lit
action_types = lit "agent_event" ∷ lit "scheduler_wakeup" ∷ []

abbrev pub misfire_policies : List Text
unfolding lit
misfire_policies = lit "skip" ∷ lit "coalesce" ∷ lit "run_all" ∷ []

abbrev pub run_statuses : List Text
unfolding lit
run_statuses = lit "running" ∷ lit "success" ∷ lit "failed" ∷ []

unfoldable pub ensure_choice : Text → Text → List Text → Result Text
unfolding exists_row lit
ensure_choice raw_value field_name allowed =
    let normalized = strip raw_value in
    if exists_row (λ a. a == normalized) allowed
    then ok normalized
    else err (runtime_error (field_name ++ lit " must be one of"))
