-- ===== src/Cron/JobRuns.antt =====
-- scheduler_cron/store_runs.py, store_runs_kwargs.py: the runs of a job. The keyword arguments of
-- `complete_run` are a record; `run_result`, the second name of `result`, is left out.
use orchestra_threads.Prelude.{
  ℕ, Bool, Option, none, some, List, [], ◌∷◌, ◌++◌, Result, Error, ok, err, Exec, ◌>>=◌, ◌>>◌, pure,
  raise, lift, foreign_key_violation, take, leb, ◌&&◌, if◌then◌else◌,
}
use orchestra_threads.Text.{Text, ◌==◌, lit}
use orchestra_threads.Sql.{select, exists_row, update, order_by}
use orchestra_threads.Dict.{Dict}
use orchestra_threads.Json.{Json}
use orchestra_threads.Cron.Rows.{JobRun, CronDb, ensure_choice, run_statuses}
use orchestra_threads.Cron.Jobs.{has_job_id, of_job, normalized_limit}

pub record CompleteRunValues : Type 0 where
  pub result_payload : Option (Dict Json)
  pub error_message : Option Text
  pub duration_ms : Option ℕ

unfoldable pub has_run_id : Text → JobRun → Bool
has_run_id run_id run = run.run_id == run_id

unfoldable pub validated_status : Text → Result Text
unfolding ensure_choice lit
validated_status status = ensure_choice status (lit "status") run_statuses

-- The INSERT: `job_id` refers to a job.
unfoldable pub insert_run : JobRun → Exec CronDb (Unit {0})
unfolding exists_row has_job_id
insert_run run db =
    if exists_row (has_job_id run.job_id) db.jobs
    then (ok tt, record db { runs = db.runs ++ run ∷ [] })
    else raise foreign_key_violation db

unfoldable pub create_run : Text → ℕ → Text → Text → Exec CronDb Text
unfolding validated_status insert_run
create_run run_id now job_id status = do
  status_value ← lift (validated_status status)
  insert_run (record {
    run_id = run_id;
    job_id = job_id;
    started_at = now;
    finished_at = none;
    status = status_value;
    outcome = none;
    error_message = none;
    duration_ms = none;
  })
  pure run_id

unfoldable pub completed_run : ℕ → Text → CompleteRunValues → JobRun → JobRun
completed_run now status v run = record run {
  finished_at = some now;
  status = status;
  outcome = v.result_payload;
  error_message = v.error_message;
  duration_ms = v.duration_ms;
}

unfoldable pub set_run : ℕ → Text → Text → CompleteRunValues → Exec CronDb Bool
unfolding exists_row has_run_id update completed_run
set_run now run_id status v db = (
  ok (exists_row (has_run_id run_id) db.runs),
  record db { runs = update (has_run_id run_id) (completed_run now status v) db.runs },
)

-- The UPDATE, unless PostgreSQL refuses its values.
unfoldable pub update_run : Option Error → ℕ → Text → Text → CompleteRunValues → Exec CronDb Bool
unfolding set_run
update_run none now run_id status v = set_run now run_id status v
update_run (some e) now run_id status v = raise e

-- `refusal` is what PostgreSQL raises for values that its types cannot hold.
unfoldable pub complete_run :
    (CompleteRunValues → Option Error) → ℕ → Text → Text → CompleteRunValues → Exec CronDb Bool
unfolding validated_status update_run
complete_run refusal now run_id status v = lift (validated_status status) >>= λ status_value.
    update_run (refusal v) now run_id status_value v

unfoldable pub started_later : JobRun → JobRun → Bool
started_later x y = leb y.started_at x.started_at

unfoldable pub in_history : Text → Option Text → JobRun → Bool
unfolding of_job
in_history job_id none run = of_job job_id run
in_history job_id (some status) run = of_job job_id run && (run.status == status)

unfoldable pub get_run_history : Text → ℕ → Option Text → CronDb → Result (List JobRun)
unfolding validated_status normalized_limit order_by started_later select in_history
get_run_history job_id limit none db = ok (
    take (normalized_limit limit 50)
      (order_by started_later (select (in_history job_id none) db.runs)))
get_run_history job_id limit (some status) db = elim (validated_status status) [
  | err e ↦ err e
  | ok s ↦ ok (
      take (normalized_limit limit 50)
        (order_by started_later (select (in_history job_id (some s)) db.runs)))
]
