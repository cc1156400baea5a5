-- ===== src/Cron/Settles.antt =====
-- scheduler_cron/scheduler_engine_runtime.py: what `run_job` leaves.
use orchestra_threads.Prelude.{
  ◌≡◌, refl, Bool, true, false, not, Option, none, some, List, [], ◌∷◌, ok, Exec, inl, inr,
  Option-cases, All, take, Result, err, Error, cancelled_error,
}
use orchestra_threads.Text.{Text, ◌==◌, lit, strip, is_space, lstrip_by, rstrip_by, eq_refl}
use orchestra_threads.Sql.{fetchrow, exists_row}
use orchestra_threads.Sql.Laws.{All-update_to, All-select}
use orchestra_threads.Dict.{Dict, get, pop, get-pop}
use orchestra_threads.Json.{Json}
use orchestra_threads.Cron.Rows.{Job, JobRun, CronDb, ensure_choice}
use orchestra_threads.Cron.Jobs.{
  get_job_by_id, update_job, delete_job, set_job, is_no_change, choice_if_set, has_name, has_job_id,
  of_job,
}
use orchestra_threads.Cron.JobRuns.{
  CompleteRunValues, has_run_id, validated_status, insert_run, create_run, completed_run, set_run,
  complete_run,
}
use orchestra_threads.Cron.Engine.{
  SchedulerApi, Engine, RunTimes, Outcome, returned, raised, cancelled, in_db, remove_job,
  remove_if, count_success, complete_success, count_failure, complete_failure, complete,
  finally_pop, execute, run_job, milliseconds,
}

module _ {Sched : Type 0} (api : SchedulerApi Sched) where
  -- `m` succeeds, whatever rows of runs there are, keeps what holds of each, and leaves the entries of the jobs
  -- that run alone.
  record Tidy (P : JobRun → Type 0) (m : Exec (Engine Sched) (Unit {0})) : Type 0 where
    succeeds : (e : Engine Sched) → (m e).0 ≡ ok tt
    keeps : (e : Engine Sched) → All P e.db.runs → All P (m e).1.db.runs

  module _ (P : JobRun → Type 0) where
    delete_job-runs :
        (name : Text) (db : CronDb) → All P db.runs → All P (delete_job name db).1.runs
    unfolding delete_job
    delete_job-runs name db h = elim (Option-cases (fetchrow (has_name (strip name)) db.jobs)) [
      | inl e ↦ rw (e, delete_job) h
      | inr (job, e) ↦ rw (e, delete_job) (All-select P (λ r. not (of_job job.job_id r)) db.runs h)
    ]

    delete_job-ok : (name : Text) (db : CronDb) → (b : Bool) × ((delete_job name db).0 ≡ ok b)
    unfolding delete_job
    delete_job-ok name db = elim (Option-cases (fetchrow (has_name (strip name)) db.jobs)) [
      | inl e ↦ (false, rw (e, delete_job) refl)
      | inr (job, e) ↦ (true, rw (e, delete_job) refl)
    ]

    remove_if-Tidy : (b : Bool) (job : Job) (job_id : Text) → Tidy P (remove_if api b job job_id)
    unfolding remove_if remove_job in_db
    remove_if-Tidy false job job_id = record { succeeds = λ e. refl; keeps = λ e h. h }
    remove_if-Tidy true job job_id = record {
      succeeds = λ e. let (b, k) = delete_job-ok job.name e.db in rw k refl;
      keeps =
          λ e h. let (b, k) = delete_job-ok job.name e.db in rw k (delete_job-runs job.name e.db h);
    }

    count_success-Tidy :
        (t : RunTimes) (job_id : Text) (b : Bool) (o : Option Job)
        → Tidy P (count_success api t job_id b o)
    unfolding count_success in_db update_job is_no_change choice_if_set set_job
    count_success-Tidy t job_id b none = record { succeeds = λ e. refl; keeps = λ e h. h }
    count_success-Tidy t job_id b (some job) = record {
      succeeds = λ e. (remove_if-Tidy b job job_id).succeeds _;
      keeps = λ e h. (remove_if-Tidy b job job_id).keeps _ h;
    }

    count_failure-Tidy : (t : RunTimes) (o : Option Job) → Tidy P (count_failure api t o)
    unfolding count_failure in_db update_job is_no_change choice_if_set set_job
    count_failure-Tidy t none = record { succeeds = λ e. refl; keeps = λ e h. h }
    count_failure-Tidy t (some job) = record { succeeds = λ e. refl; keeps = λ e h. h }

  -- A row of this run says how it ended, and when.
  abbrev pub Settled : RunTimes → Text → JobRun → Type 0
  Settled t status run =
      has_run_id t.run_id run ≡ true
      → (run.status ≡ status) × (run.finished_at ≡ some t.finished_at)

  set_run-Settled :
      (t : RunTimes) (status : Text) (v : CompleteRunValues) (db : CronDb)
      → All (Settled t status) (set_run t.finished_at t.run_id status v db).1.runs
  unfolding set_run completed_run
  set_run-Settled t status v db =
      All-update_to (λ r. Unit {0}) (Settled t status) (has_run_id t.run_id)
        (completed_run t.finished_at status v) (λ r hit u same. (refl, refl))
        (λ r miss u hit. absurd (cc (miss, hit))) db.runs (all_runs db.runs)
    where
      all_runs : (xs : List JobRun) → All (λ r. Unit {0}) xs
      all_runs [] = tt
      all_runs (x ∷ xs) = (tt, all_runs xs)

  abbrev pub success_values : RunTimes → Dict Json → CompleteRunValues
  success_values t outcome = record {
    result_payload = some outcome;
    error_message = none;
    duration_ms = some (milliseconds api t);
  }

  abbrev pub failure_values : RunTimes → Text → CompleteRunValues
  failure_values t message = record {
    result_payload = none;
    error_message = some (take 1024 message);
    duration_ms = some (milliseconds api t);
  }

  -- The run has ended with `status`, or `e` was raised and the store is as the action left it.
  abbrev pub EndsAs :
      RunTimes → Text → CronDb → Option Error → Result (Unit {0}) × Engine Sched → Type 0
  EndsAs t status db none after = (after.0 ≡ ok tt) × All (Settled t status) after.1.db.runs
  EndsAs t status db (some e) after = (after.0 ≡ err e) × (after.1.db ≡ db)

  -- What a run leaves after its action.
  abbrev pub Leaves : RunTimes → Outcome × CronDb → Result (Unit {0}) × Engine Sched → Type 0
  Leaves t (returned outcome, db) after =
      EndsAs t (lit "success") db (api.refusal (success_values t outcome)) after
  Leaves t (raised message, db) after =
      EndsAs t (lit "failed") db (api.refusal (failure_values t message)) after
  Leaves t (cancelled, db) after = (after.0 ≡ err cancelled_error) × (after.1.db ≡ db)

  success_lem :
      (t : RunTimes) (job_id : Text) (b : Bool) (outcome : Dict Json) (e : Engine Sched)
      → Leaves t (returned outcome, e.db) (complete_success api t job_id b outcome e)
  unfolding complete_success in_db complete_run validated_status ensure_choice exists_row strip
      lstrip_by rstrip_by is_space lit ◌==◌
  success_lem t job_id b outcome e = elim (Option-cases (api.refusal (success_values t outcome))) [
    | inr (error, k) ↦ rw (k, complete_success) (refl, refl)
    | inl k ↦
        let db =
          (set_run t.finished_at t.run_id (lit "success") (success_values t outcome) e.db).1 in
        let tidy =
          count_success-Tidy (Settled t (lit "success")) t job_id b (get_job_by_id job_id db) in
        rw (k, complete_success)
          (tidy.succeeds _, tidy.keeps _ (set_run-Settled t (lit "success") _ e.db))
  ]

  failure_lem :
      (t : RunTimes) (job_id message : Text) (e : Engine Sched)
      → Leaves t (raised message, e.db) (complete_failure api t job_id message e)
  unfolding complete_failure in_db complete_run validated_status ensure_choice exists_row strip
      lstrip_by rstrip_by is_space lit ◌==◌
  failure_lem t job_id message e = elim (Option-cases (api.refusal (failure_values t message))) [
    | inr (error, k) ↦ rw (k, complete_failure) (refl, refl)
    | inl k ↦
        let db =
          (set_run t.finished_at t.run_id (lit "failed") (failure_values t message) e.db).1 in
        let tidy = count_failure-Tidy (Settled t (lit "failed")) t (get_job_by_id job_id db) in
        rw (k, complete_failure)
          (tidy.succeeds _, tidy.keeps _ (set_run-Settled t (lit "failed") _ e.db))
  ]

  complete_lem :
      (t : RunTimes) (job_id : Text) (b : Bool) (outcome : Outcome) (e : Engine Sched)
      → Leaves t (outcome, e.db) (complete api t job_id b outcome e)
  unfolding complete
  complete_lem t job_id b (returned outcome) e = success_lem t job_id b outcome e
  complete_lem t job_id b (raised message) e = failure_lem t job_id message e
  complete_lem t job_id b cancelled e = (refl, refl)

  -- The `finally` does not touch the store or the result.
  popped_Leaves :
      (t : RunTimes) (out : Outcome × CronDb) (r : Result (Unit {0})) (job_id : Text)
      (e : Engine Sched)
      → Leaves t out (r, e)
      → Leaves t out (r, record e { running_jobs = pop job_id e.running_jobs })
  popped_Leaves t (returned outcome, db) r job_id e h = popped _ h
    where
      popped :
          (o : Option Error)
          → EndsAs t (lit "success") db o (r, e)
          → EndsAs t (lit "success") db o (r, record e { running_jobs = pop job_id e.running_jobs })
      popped none k = k
      popped (some x) k = k
  popped_Leaves t (raised message, db) r job_id e h = popped _ h
    where
      popped :
          (o : Option Error)
          → EndsAs t (lit "failed") db o (r, e)
          → EndsAs t (lit "failed") db o (r, record e { running_jobs = pop job_id e.running_jobs })
      popped none k = k
      popped (some x) k = k
  popped_Leaves t (cancelled, db) r job_id e h = h

  executed_lem :
      (t : RunTimes) (job_id : Text) (b : Bool) (act : CronDb → Outcome × CronDb) (e : Engine Sched)
      → let after = finally_pop api job_id (execute api t job_id b act) e in
        (get job_id after.1.running_jobs ≡ none) × Leaves t (act e.db) after
  unfolding finally_pop execute
  executed_lem t job_id b act e = (
    rw (get-pop job_id job_id, eq_refl job_id) refl,
    popped_Leaves t (act e.db) _ job_id _
        (complete_lem t job_id b (act e.db).0 (record e { db = (act e.db).1 })),
  )

  -- After a run of a job that is in the store the job is not among the running ones, however the action ends and
  -- whatever the rest of the process does to the store meanwhile. If the action returns or raises an
  -- `Exception` and PostgreSQL takes what there is to write, the run succeeds as a call, and its row, if it is
  -- still there, has the status `success` or `failed` of the action and the time of its end. If the
  -- values are refused, or the action is cancelled, the error is raised on and no row is changed after the
  -- action.
  pub run_job_settles :
      (t : RunTimes) (job_id : Text) (auto_delete : Bool) (act : CronDb → Outcome × CronDb)
      → (e : Engine Sched) → exists_row (has_job_id job_id) e.db.jobs ≡ true
      → let after = run_job api t job_id auto_delete act e in
        let started = (create_run t.run_id t.started_at job_id (lit "running") e.db).1 in
        (get job_id after.1.running_jobs ≡ none) × Leaves t (act started) after
  unfolding run_job in_db create_run validated_status insert_run ensure_choice exists_row strip
      lstrip_by rstrip_by is_space lit ◌==◌ finally_pop execute
  run_job_settles t job_id auto_delete act e h = rw h (executed_lem t job_id auto_delete act _)
