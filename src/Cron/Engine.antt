-- ===== src/Cron/Engine.antt =====
-- scheduler_cron/scheduler_engine_runtime.py, scheduler_engine_support.py: the engine. APScheduler is
-- the argument `api`; `Sched` is what it keeps. While a job's action runs, the rest of the process may
-- change the store in any way: `act` gives the store after it, and what the action returned or raised.
-- The completion of a run is not interleaved with other tasks.
use Prim.Native.Nat.{◌/◌}
use orchestra_threads.Prelude.{
  ℕ, ◌+◌, ◌-◌, Bool, true, false, not, Option, none, some, List, [], ◌∷◌, Result, Error,
  cancelled_error, raise, ok, err, Exec, ◌>>=◌, ◌>>◌, pure, gets, modify, take, if◌then◌else◌,
}
use orchestra_threads.Text.{Text, ◌==◌, lit, is_empty}
use orchestra_threads.Sql.{select, exists_row}
use orchestra_threads.Dict.{Dict, put, pop}
use orchestra_threads.Json.{Json}
use orchestra_threads.Cron.Rows.{Job, CronDb}
use orchestra_threads.Cron.Jobs.{listed_jobs, get_job_by_id, update_job, delete_job, no_changes}
use orchestra_threads.Cron.JobRuns.{CompleteRunValues, create_run, complete_run}

-- What `add_job` of APScheduler is called with.
pub record ScheduledJob : Type 0 where
  pub job_id : Text
  pub name : Text
  pub job_type : Text
  pub schedule : Text
  pub action_type : Text
  pub action_payload : Dict Json
  pub auto_delete : Bool
  pub coalesces : Bool
  pub misfire_grace_time : Option ℕ

pub record SchedulerApi (Sched : Type 0) : Type 0 where
  -- The ids of `get_jobs`.
  pub job_ids : Sched → List Text
  -- `add_job` with `replace_existing`, or an error of the trigger.
  pub add : ScheduledJob → Sched → Result Sched
  pub remove : Text → Sched → Result Sched
  -- What PostgreSQL raises for the values of a run.
  pub refusal : CompleteRunValues → Option Error

-- The ways in which a date or a crontab is no schedule are APScheduler's, in `add`.
unfoldable pub job_options : Job → Bool × Option ℕ
unfolding lit
job_options job =
    let policy = if is_empty job.misfire_policy then lit "skip" else job.misfire_policy in
    (policy == lit "coalesce", if policy == lit "skip" then none else some 3600)

unfoldable pub scheduled_job : Job → ScheduledJob
unfolding job_options
scheduled_job job = record {
  job_id = job.job_id;
  name = job.name;
  job_type = job.job_type;
  schedule = job.schedule;
  action_type = job.action_type;
  action_payload = job.action_payload;
  auto_delete = job.auto_delete;
  coalesces = (job_options job).0;
  misfire_grace_time = (job_options job).1;
}

pub record Engine (Sched : Type 0) : Type 0 where
  pub db : CronDb
  pub scheduler : Option Sched
  pub running_jobs : Dict Text

pub record RunTimes : Type 0 where
  pub run_id : Text
  pub started_at : ℕ
  pub finished_at : ℕ

-- What the action of a job returns, or the text of the `Exception` that it raises, or
-- `asyncio.CancelledError`, which is no `Exception`.
pub data Outcome : Type 0 where
  returned : Dict Json → Outcome
  raised : Text → Outcome
  cancelled : Outcome

module _ {Sched : Type 0} (api : SchedulerApi Sched) where
  unfoldable pub in_db : {A : Type 0} → Exec CronDb A → Exec (Engine Sched) A
  in_db m e = let (r, db) = m e.db in (r, record e { db = db })

  -- `_call_scheduler`: whatever it raises is `False`.
  unfoldable pub call_scheduler : Option Sched → (Sched → Result Sched) → Bool × Option Sched
  call_scheduler none operation = (false, none)
  call_scheduler (some s) operation = elim (operation s) [
    | err e ↦ (false, some s)
    | ok s' ↦ (true, some s')
  ]

  unfoldable pub remove_job : Text → Exec (Engine Sched) Bool
  unfolding call_scheduler
  remove_job job_id e =
      let (done, scheduler) = call_scheduler e.scheduler (api.remove job_id) in
      (ok done, record e { scheduler = scheduler })

  -- `asyncio.gather`: each job is added, and the first error is raised after all of them.
  unfoldable pub added : Result Sched → Sched → Result (Unit {0}) × Sched
  added (ok s') s = (ok tt, s')
  added (err e) s = (err e, s)

  unfoldable pub first_error : Result (Unit {0}) → Result (Unit {0}) → Result (Unit {0})
  first_error (ok a) r = r
  first_error (err e) r = err e

  unfoldable pub add_missing : List Job → Exec Sched (Unit {0})
  unfolding scheduled_job added first_error
  add_missing [] s = (ok tt, s)
  add_missing (job ∷ jobs) s =
      let (r, s') = added (api.add (scheduled_job job) s) s in
      let (rest, s'') = add_missing jobs s' in (first_error r rest, s'')

  unfoldable pub is_missing : List Text → Job → Bool
  unfolding exists_row
  is_missing existing job = not (exists_row (λ i. i == job.job_id) existing)

  -- The enabled jobs that the scheduler does not have, of the first 100 that `list_jobs` gives.
  unfoldable pub sync_jobs_from_db : CronDb → Exec Sched (Unit {0})
  unfolding listed_jobs select is_missing add_missing
  sync_jobs_from_db db s =
      add_missing (select (is_missing (api.job_ids s)) (listed_jobs (some true) none 100 db)) s

  -- Times are microseconds.
  unfoldable pub milliseconds : RunTimes → ℕ
  milliseconds t = (t.finished_at - t.started_at) / 1000

  -- What follows the UPDATE of a job that ran.
  unfoldable pub remove_if : Bool → Job → Text → Exec (Engine Sched) (Unit {0})
  unfolding remove_job in_db delete_job
  remove_if false job job_id = pure tt
  remove_if true job job_id = do remove_job job_id; in_db (delete_job job.name); pure tt

  unfoldable pub count_success :
      RunTimes → Text → Bool → Option Job → Exec (Engine Sched) (Unit {0})
  unfolding in_db update_job remove_if
  count_success t job_id auto_delete none = pure tt
  count_success t job_id auto_delete (some job) = do
    in_db (
        update_job t.finished_at job.name (record no_changes {
          last_run_at = some (some t.started_at);
          run_count = some (job.run_count + 1);
        }))
    remove_if auto_delete job job_id

  unfoldable pub complete_success :
      RunTimes → Text → Bool → Dict Json → Exec (Engine Sched) (Unit {0})
  unfolding in_db complete_run milliseconds get_job_by_id count_success lit
  complete_success t job_id auto_delete outcome = do
    in_db (
        complete_run api.refusal t.finished_at t.run_id (lit "success") (record {
          result_payload = some outcome;
          error_message = none;
          duration_ms = some (milliseconds t);
        }))
    job ← gets (λ e. get_job_by_id job_id e.db)
    count_success t job_id auto_delete job

  unfoldable pub count_failure : RunTimes → Option Job → Exec (Engine Sched) (Unit {0})
  unfolding in_db update_job
  count_failure t none = pure tt
  count_failure t (some job) = do
    in_db (
        update_job t.finished_at job.name
          (record no_changes { failure_count = some (job.failure_count + 1) }))
    pure tt

  unfoldable pub complete_failure : RunTimes → Text → Text → Exec (Engine Sched) (Unit {0})
  unfolding in_db complete_run milliseconds get_job_by_id count_failure lit
  complete_failure t job_id message = do
    in_db (
        complete_run api.refusal t.finished_at t.run_id (lit "failed") (record {
          result_payload = none;
          error_message = some (take 1024 message);
          duration_ms = some (milliseconds t);
        }))
    job ← gets (λ e. get_job_by_id job_id e.db)
    count_failure t job

  unfoldable pub complete : RunTimes → Text → Bool → Outcome → Exec (Engine Sched) (Unit {0})
  unfolding complete_success complete_failure
  complete t job_id auto_delete (returned outcome) = complete_success t job_id auto_delete outcome
  complete t job_id auto_delete (raised message) = complete_failure t job_id message
  complete t job_id auto_delete cancelled = raise cancelled_error

  -- `finally: running_jobs.pop(job_id, None)`
  unfoldable pub finally_pop :
      Text → Exec (Engine Sched) (Unit {0}) → Exec (Engine Sched) (Unit {0})
  unfolding pop
  finally_pop job_id m e =
      let (r, e') = m e in (r, record e' { running_jobs = pop job_id e'.running_jobs })

  -- From the moment that the action is called.
  unfoldable pub execute :
      RunTimes → Text → Bool → (CronDb → Outcome × CronDb) → Exec (Engine Sched) (Unit {0})
  unfolding complete
  execute t job_id auto_delete act e =
      let (outcome, db) = act e.db in complete t job_id auto_delete outcome (record e { db = db })

  unfoldable pub run_job :
      RunTimes → Text → Bool → (CronDb → Outcome × CronDb) → Exec (Engine Sched) (Unit {0})
  unfolding in_db create_run put finally_pop execute lit
  run_job t job_id auto_delete act = do
    in_db (create_run t.run_id t.started_at job_id (lit "running"))
    modify λ e. record e { running_jobs = put job_id t.run_id e.running_jobs }
    finally_pop job_id (execute t job_id auto_delete act)
