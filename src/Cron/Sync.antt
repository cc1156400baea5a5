-- ===== src/Cron/Sync.antt =====
-- scheduler_cron/scheduler_engine_runtime.py: the scheduler gets the jobs of the store.
use orchestra_threads.Prelude.{
  ◌≤◌, ◌≡◌, refl, Bool, true, false, none, some, List, [], ◌∷◌, ok, inl, inr, Result-cases, arith,
  All, All-map, All-both, length, subst,
}
use orchestra_threads.Text.{Text, ◌==◌}
use orchestra_threads.Sql.{select, exists_row, order_by}
use orchestra_threads.Sql.Laws.{select-eq-nil}
use orchestra_threads.Sql.Ordering.{All-of-select, All-of-order_by, take-all, length-order_by}
use orchestra_threads.Cron.Rows.{Job, CronDb}
use orchestra_threads.Cron.Jobs.{matches_job, created_later, listed_jobs, normalized_limit}
use orchestra_threads.Cron.Engine.{
  SchedulerApi, ScheduledJob, scheduled_job, added, add_missing, is_missing, sync_jobs_from_db,
}

module _ {Sched : Type 0} (api : SchedulerApi Sched) where
  abbrev pub is_scheduled : Text → Sched → Bool
  is_scheduled job_id s = exists_row (λ i. i == job_id) (api.job_ids s)

  -- What APScheduler documents of `add_job` and `get_jobs`: a job with a good trigger is accepted, it
  -- is there afterwards, and the others stay.
  pub record IsScheduler (accepts : ScheduledJob → Bool) : Type 0 where
    pub accepted :
        (j : ScheduledJob) (s : Sched) → accepts j ≡ true → (s' : Sched) × (api.add j s ≡ ok s')
    pub listed :
        (j : ScheduledJob) (s s' : Sched) → api.add j s ≡ ok s' → is_scheduled j.job_id s' ≡ true
    pub kept :
        (j : ScheduledJob) (s s' : Sched) (job_id : Text)
        → api.add j s ≡ ok s'
        → is_scheduled job_id s ≡ true
        → is_scheduled job_id s' ≡ true

  module _ (accepts : ScheduledJob → Bool) (laws : IsScheduler accepts) where
    added-kept :
        (j : ScheduledJob) (s : Sched) (job_id : Text)
        → is_scheduled job_id s ≡ true
        → is_scheduled job_id (added api (api.add j s) s).1 ≡ true
    unfolding added
    added-kept j s job_id h = elim (Result-cases (api.add j s)) [
      | inl (s', e) ↦ rw e (laws.kept j s s' job_id e h)
      | inr (x, e) ↦ rw e h
    ]

    add_missing-kept :
        (jobs : List Job) (s : Sched) (job_id : Text)
        → is_scheduled job_id s ≡ true
        → is_scheduled job_id (add_missing api jobs s).1 ≡ true
    unfolding add_missing
    add_missing-kept [] s job_id h = h
    add_missing-kept (job ∷ jobs) s job_id h =
        add_missing-kept jobs (added api (api.add (scheduled_job job) s) s).1 job_id
          (added-kept (scheduled_job job) s job_id h)

    -- A job that the scheduler accepts is scheduled.
    abbrev pub Scheduled : Sched → Job → Type 0
    Scheduled s job = accepts (scheduled_job job) ≡ true → is_scheduled job.job_id s ≡ true

    added-Scheduled :
        (job : Job) (s : Sched) → Scheduled (added api (api.add (scheduled_job job) s) s).1 job
    unfolding added
    added-Scheduled job s h =
        let (s', e) = laws.accepted (scheduled_job job) s h in
        rw e (unfold scheduled_job in laws.listed (scheduled_job job) s s' e)

    add_missing-Scheduled :
        (jobs : List Job) (s : Sched) → All (Scheduled (add_missing api jobs s).1) jobs
    unfolding add_missing
    add_missing-Scheduled [] s = tt
    add_missing-Scheduled (job ∷ jobs) s = (
      λ h.
          add_missing-kept jobs (added api (api.add (scheduled_job job) s) s).1 job.job_id
            (added-Scheduled job s h),
      add_missing-Scheduled jobs (added api (api.add (scheduled_job job) s) s).1,
    )

    -- All listed jobs are scheduled: the missing ones are added, the others stay.
    listed-Scheduled :
        (db : CronDb) (s : Sched)
        → All (Scheduled (sync_jobs_from_db api db s).1) (listed_jobs (some true) none 100 db)
    unfolding sync_jobs_from_db is_missing
    listed-Scheduled db s =
        let listed = listed_jobs (some true) none 100 db in
        let missing = select (is_missing api (api.job_ids s)) listed in
        All-of-select (Scheduled (add_missing api missing s).1) (is_missing api (api.job_ids s))
          (λ job e h. add_missing-kept missing s job.job_id (there job e)) listed
          (add_missing-Scheduled missing s)
      where
        there :
            (job : Job)
            → is_missing api (api.job_ids s) job ≡ false
            → is_scheduled job.job_id s ≡ true
        there job e = ground (arith, e)

    -- After a synchronisation every enabled job of the store is scheduled, if its schedule is one that the
    -- scheduler accepts, and if at most 100 jobs are enabled. This holds also if other jobs are refused.
    pub sync_schedules_enabled :
        (db : CronDb) (s : Sched)
        → length (select (matches_job (some true) none) db.jobs) ≤ 100
        → All (λ job. job.enabled ≡ true → Scheduled (sync_jobs_from_db api db s).1 job) db.jobs
    unfolding listed_jobs normalized_limit matches_job
    sync_schedules_enabled db s few =
        let enabled = select (matches_job (some true) none) db.jobs in
        let u = (sync_jobs_from_db api db s).1 in
        All-of-select _ (matches_job (some true) none) (λ job e on. absurd (ground (arith, e, on)))
          db.jobs
          (All-map (Scheduled u) _ enabled (λ job h on. h)
            (All-of-order_by (Scheduled u) created_later enabled (
              subst (All (Scheduled u))
                (take-all 100 (order_by created_later enabled)
                  (omega (arith, length-order_by created_later enabled)))
                (listed-Scheduled db s))))

    -- When the scheduler accepts the schedules of all listed jobs, a second synchronisation finds
    -- every one of them there, and does nothing.
    pub second_sync_changes_nothing :
        (db : CronDb) (s : Sched)
        → All (λ job. accepts (scheduled_job job) ≡ true) (listed_jobs (some true) none 100 db)
        → sync_jobs_from_db api db (sync_jobs_from_db api db s).1
          ≡ (ok tt, (sync_jobs_from_db api db s).1)
    unfolding sync_jobs_from_db add_missing is_missing
    second_sync_changes_nothing db s good =
        let listed = listed_jobs (some true) none 100 db in
        let u = (sync_jobs_from_db api db s).1 in
        nothing_missing u (
          select-eq-nil (is_missing api (api.job_ids u)) listed (
            All-map _ _ listed (λ job h. ground (arith, h.1 h.0))
              (All-both _ _ listed good (listed-Scheduled db s))))
      where
        nothing_missing :
            (u : Sched)
            → select (is_missing api (api.job_ids u)) (listed_jobs (some true) none 100 db) ≡ []
            → sync_jobs_from_db api db u ≡ (ok tt, u)
        nothing_missing u e = rw e refl
