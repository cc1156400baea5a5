-- ===== src/Examples/Schedule.antt =====
-- The theorems on scheduler_cron, at a store with one job.
use orchestra_threads.Prelude.{
  ◌≡◌, refl, Bool, true, false, none, some, List, [], ◌∷◌, ok, arith, All, subst, if◌then◌else◌,
}
use orchestra_threads.Text.{Text, ◌==◌, eq_refl, lit, strip, is_space}
use orchestra_threads.Sql.{select, exists_row, order_by, insert_row}
use orchestra_threads.Dict.{get}
use orchestra_threads.Cron.Rows.{Job, CronDb}
use orchestra_threads.Cron.Jobs.{has_job_id, matches_job, listed_jobs, normalized_limit}
use orchestra_threads.Cron.Engine.{
  SchedulerApi, ScheduledJob, Engine, RunTimes, Outcome, returned, run_job, sync_jobs_from_db,
}
use orchestra_threads.Cron.Settles.{Settled, run_job_settles}
use orchestra_threads.Text.Decimal.{str_int}
use orchestra_threads.Cron.Names.{names}
use orchestra_threads.Cron.Bootstrap.{bootstrap_jobs, job_definitions}
use orchestra_threads.Cron.Installed.{Installed, second_bootstrap_creates_nothing}
use orchestra_threads.Cron.Sync.{
  IsScheduler, Scheduled, sync_schedules_enabled, second_sync_changes_nothing,
}

-- A scheduler that is the list of its ids, and takes every job.
abbrev api : SchedulerApi (List Text)
api = record {
  job_ids = λ s. s;
  add = λ j s. ok (j.job_id ∷ s);
  remove = λ i s. ok (select (λ k. if k == i then false else true) s);
  refusal = λ v. none;
}

abbrev accepts : ScheduledJob → Bool
accepts j = true

same : (j : ScheduledJob) (s s' : List Text) → api.add j s ≡ ok s' → j.job_id ∷ s ≡ s'
same j s s' e = cc e

api-IsScheduler : IsScheduler api accepts
unfolding exists_row
api-IsScheduler = record {
  accepted = λ j s h. (j.job_id ∷ s, refl);
  listed = λ j s s' e.
      subst (λ u. exists_row (λ k. k == j.job_id) u ≡ true) (same j s s' e)
        (ground (arith, eq_refl j.job_id));
  kept = λ j s s' i e h.
      subst (λ u. exists_row (λ k. k == i) u ≡ true) (same j s s' e) (ground (arith, h));
}

abbrev job : Job
unfolding lit
job = record {
  job_id = lit "j";
  name = lit "n";
  job_type = lit "cron";
  schedule = lit "* * * * *";
  action_type = lit "agent_event";
  action_payload = [];
  enabled = true;
  auto_delete = false;
  misfire_policy = lit "skip";
  created_by = lit "c";
  created_at = 1;
  updated_at = 1;
  last_run_at = none;
  next_run_at = none;
  run_count = 0;
  failure_count = 0;
  metadata = [];
}

abbrev db : CronDb
db = record { jobs = job ∷ []; runs = [] }

abbrev engine : Engine (List Text)
engine = record { db = db; scheduler = some []; running_jobs = [] }

abbrev times : RunTimes
unfolding lit
times = record { run_id = lit "r"; started_at = 5; finished_at = 6 }

-- The action answers with an empty object, and the store stays as it is.
abbrev act : CronDb → Outcome × CronDb
act u = (returned [], u)

run_job_settles_example :
    let after = run_job api times (lit "j") false act engine in
    (get (lit "j") after.1.running_jobs ≡ none)
    × ((after.0 ≡ ok tt) × All (Settled api times (lit "success")) after.1.db.runs)
unfolding exists_row has_job_id ◌==◌ lit job
run_job_settles_example = run_job_settles api times (lit "j") false act engine refl

sync_schedules_enabled_example :
    All
      (λ j.
        j.enabled ≡ true → Scheduled api accepts api-IsScheduler (sync_jobs_from_db api db []).1 j)
      db.jobs
unfolding select matches_job job
sync_schedules_enabled_example =
    sync_schedules_enabled api accepts api-IsScheduler db [] (omega arith)

second_sync_changes_nothing_example :
    sync_jobs_from_db api db (sync_jobs_from_db api db []).1
    ≡ (ok tt, (sync_jobs_from_db api db []).1)
unfolding listed_jobs select matches_job order_by insert_row normalized_limit job
second_sync_changes_nothing_example =
    second_sync_changes_nothing api accepts api-IsScheduler db [] (refl, tt)

abbrev empty_engine : Engine (List Text)
empty_engine = record {
  db = record { jobs = []; runs = [] };
  scheduler = some [];
  running_jobs = [];
}

second_bootstrap_creates_nothing_example :
    let u = (bootstrap_jobs api str_int 0 1 job_definitions empty_engine).1 in
    All (Installed api (names u.db)) job_definitions
    × (names (bootstrap_jobs api str_int 0 2 job_definitions u).1.db ≡ names u.db)
unfolding bootstrap_jobs job_definitions ◌==◌ strip is_space str_int lit
second_bootstrap_creates_nothing_example =
    second_bootstrap_creates_nothing api str_int str_int 1 2 job_definitions empty_engine
      (lit "overdue-check" ∷ lit "health-check" ∷ lit "whiner-audit" ∷ lit "weekly-summary" ∷ [])
      refl
