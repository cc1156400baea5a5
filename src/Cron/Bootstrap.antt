-- ===== src/Cron/Bootstrap.antt =====
-- scheduler_cron/bootstrap_ops.py, bootstrap_data.py: the jobs that the service brings with it. The
-- tasks of `asyncio.gather` run one after the other, and the first error is raised after all of them.
use orchestra_threads.Prelude.{
  ℕ, suc, Bool, true, false, Option, none, some, List, [], ◌∷◌, Result, ok, err, Exec, ◌>>=◌, ◌>>◌,
  pure, gets,
}
use orchestra_threads.Text.{Text, lit}
use orchestra_threads.Dict.{Dict}
use orchestra_threads.Json.{Json, null, string, new_object}
use orchestra_threads.Cron.Rows.{Job}
use orchestra_threads.Cron.Jobs.{
  JobRequest, JobChanges, no_changes, create_job, update_job, get_job_by_name, get_job_by_id,
}
use orchestra_threads.Cron.Engine.{SchedulerApi, Engine, in_db, scheduled_job}

pub record JobDefinition : Type 0 where
  pub name : Text
  pub job_type : Text
  pub schedule : Text
  pub action_type : Text
  pub action_payload : Dict Json
  pub enabled : Bool
  pub auto_delete : Bool
  pub misfire_policy : Text
  pub created_by : Text

unfoldable pub job_payload : JobDefinition → JobChanges
job_payload d = record no_changes {
  schedule = some d.schedule;
  action_type = some d.action_type;
  action_payload = some d.action_payload;
  enabled = some d.enabled;
  auto_delete = some d.auto_delete;
  misfire_policy = some d.misfire_policy;
}

unfoldable pub create_payload : JobDefinition → JobRequest
create_payload d = record {
  name = d.name;
  job_type = d.job_type;
  schedule = d.schedule;
  action_type = d.action_type;
  action_payload = d.action_payload;
  enabled = d.enabled;
  auto_delete = d.auto_delete;
  misfire_policy = d.misfire_policy;
  created_by = d.created_by;
  metadata = [];
  last_run_at = none;
  next_run_at = none;
}

module _ {Sched : Type 0} (api : SchedulerApi Sched) where
  unfoldable pub placed : Result Sched → Engine Sched → Result (Unit {0}) × Engine Sched
  placed (err x) e = (err x, e)
  placed (ok s) e = (ok tt, record e { scheduler = some s })

  unfoldable pub add_to : Option Sched → Job → Exec (Engine Sched) (Unit {0})
  unfolding placed scheduled_job
  add_to none job e = (ok tt, e)
  add_to (some s) job e = placed (api.add (scheduled_job job) s) e

  -- `SchedulerEngine.add_job`
  unfoldable pub add_job : Job → Exec (Engine Sched) (Unit {0})
  unfolding add_to
  add_job job e = add_to e.scheduler job e

  -- The job is handed to the engine if it is there and enabled; whether it was.
  unfoldable pub hand_over : Option Job → Bool → Exec (Engine Sched) Bool
  unfolding add_job
  hand_over none on = pure false
  hand_over (some job) false = pure false
  hand_over (some job) true = add_job job >> pure true

  unfoldable pub is_enabled : Option Job → Bool
  is_enabled none = false
  is_enabled (some job) = job.enabled

  unfoldable pub refresh_existing : ℕ → JobDefinition → Exec (Engine Sched) (Option Text)
  unfolding in_db update_job job_payload get_job_by_name hand_over is_enabled
  refresh_existing now d = do
    in_db api (update_job now d.name (job_payload d))
    refreshed ← gets (λ e. get_job_by_name d.name e.db)
    hand_over refreshed (is_enabled refreshed)
    pure none

  unfoldable pub named_if : Bool → Text → Option Text
  named_if true name = some name
  named_if false name = none

  unfoldable pub create_missing : Text → ℕ → JobDefinition → Exec (Engine Sched) (Option Text)
  unfolding in_db create_job create_payload get_job_by_id hand_over is_enabled named_if
  create_missing job_id now d = do
    id ← in_db api (create_job job_id now (create_payload d))
    job ← gets (λ e. get_job_by_id id e.db)
    handed ← hand_over job (is_enabled job)
    pure (named_if handed d.name)

  unfoldable pub apply_to :
      Option Job → Text → ℕ → JobDefinition → Exec (Engine Sched) (Option Text)
  unfolding refresh_existing create_missing
  apply_to (some existing) job_id now d = refresh_existing now d
  apply_to none job_id now d = create_missing job_id now d

  unfoldable pub apply_job : Text → ℕ → JobDefinition → Exec (Engine Sched) (Option Text)
  unfolding get_job_by_name apply_to
  apply_job job_id now d e = apply_to (get_job_by_name d.name e.db) job_id now d e

  -- The names that were created, or the first error.
  unfoldable pub gathered : Result (Option Text) → Result (List Text) → Result (List Text)
  gathered (err x) rest = err x
  gathered (ok name) (err x) = err x
  gathered (ok none) (ok names) = ok names
  gathered (ok (some name)) (ok names) = ok (name ∷ names)

  -- `job_id n` is the id of the n-th job, if it is created.
  unfoldable pub bootstrap_jobs :
      (ℕ → Text) → ℕ → ℕ → List JobDefinition → Exec (Engine Sched) (List Text)
  unfolding apply_job gathered
  bootstrap_jobs job_id n now [] e = (ok [], e)
  bootstrap_jobs job_id n now (d ∷ ds) e =
      let (r, e') = apply_job (job_id n) now d e in
      let (rest, e'') = bootstrap_jobs job_id (suc n) now ds e' in (gathered r rest, e'')

-- bootstrap_data.py
unfoldable pub scheduler_wakeup_payload : Text → Dict Json
unfolding lit
scheduler_wakeup_payload task =
    (lit "task", string task)
    ∷ (lit "context", new_object [])
    ∷ (lit "target_agent", string (lit "sgr"))
    ∷ []

unfoldable pub whiner_audit_payload : Dict Json
unfolding lit
whiner_audit_payload =
    (lit "task", string (lit "scheduled_audit"))
    ∷ (lit "context", new_object [])
    ∷ (lit "target_agent", string (lit "whiner"))
    ∷ []

unfoldable pub health_check_payload : Dict Json
unfolding lit
health_check_payload =
    (lit "target_agent", string (lit "sgr"))
    ∷ (
      lit "event_data",
      new_object ((lit "type", string (lit "health_check")) ∷ (lit "timestamp", null) ∷ []),
    )
    ∷ []

-- What the definitions have in common.
unfoldable pub system_job : Text → Text → Text → Dict Json → JobDefinition
unfolding lit
system_job name schedule action_type action_payload = record {
  name = name;
  job_type = lit "cron";
  schedule = schedule;
  action_type = action_type;
  action_payload = action_payload;
  enabled = true;
  auto_delete = false;
  misfire_policy = lit "skip";
  created_by = lit "system";
}

unfoldable pub job_definitions : List JobDefinition
unfolding system_job scheduler_wakeup_payload whiner_audit_payload health_check_payload lit
job_definitions =
    system_job (lit "overdue-check") (lit "0 9 * * *") (lit "scheduler_wakeup")
      (scheduler_wakeup_payload (lit "check_overdue_tasks"))
    ∷ system_job (lit "health-check") (lit "*/15 * * * *") (lit "agent_event") health_check_payload
    ∷ system_job (lit "whiner-audit") (lit "0 */3 * * *") (lit "scheduler_wakeup")
        whiner_audit_payload
    ∷ system_job (lit "weekly-summary") (lit "0 8 * * 1") (lit "scheduler_wakeup")
        (scheduler_wakeup_payload (lit "generate_weekly_summary"))
    ∷ []
