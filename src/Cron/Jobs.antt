-- ===== src/Cron/Jobs.antt =====
-- scheduler_cron/store_jobs.py, store_jobs_create.py, store_jobs_list_update.py: the jobs. Keyword
-- arguments are records, so that unknown keys and values of other types cannot be written.
use orchestra_threads.Prelude.{
  ℕ, max, Bool, true, false, not, ◌&&◌, ◌||◌, Option, none, some, List, [], ◌∷◌, ◌++◌, Result, ok,
  err, Exec, ◌>>=◌, ◌>>◌, pure, raise, lift, unique_violation, coalesce, take, leb, eqb, is_some,
  if◌then◌else◌,
}
use orchestra_threads.Text.{Text, ◌==◌, lit, strip}
use orchestra_threads.Sql.{select, fetchrow, exists_row, update, order_by}
use orchestra_threads.Dict.{Dict}
use orchestra_threads.Json.{Json}
use orchestra_threads.Cron.Rows.{
  Job, JobRun, CronDb, ensure_choice, job_types, action_types, misfire_policies,
}

pub record JobRequest : Type 0 where
  pub name : Text
  pub job_type : Text
  pub schedule : Text
  pub action_type : Text
  pub action_payload : Dict Json
  pub enabled : Bool
  pub auto_delete : Bool
  pub misfire_policy : Text
  pub created_by : Text
  pub metadata : Dict Json
  pub last_run_at : Option ℕ
  pub next_run_at : Option ℕ

unfoldable pub has_name : Text → Job → Bool
has_name name job = job.name == name

unfoldable pub has_job_id : Text → Job → Bool
has_job_id job_id job = job.job_id == job_id

unfoldable pub of_job : Text → JobRun → Bool
of_job job_id run = run.job_id == job_id

-- The INSERT: `name` is unique and `id` the primary key.
unfoldable pub insert_job : Job → Exec CronDb (Unit {0})
unfolding exists_row has_name has_job_id
insert_job job db =
    if exists_row (has_name job.name) db.jobs || exists_row (has_job_id job.job_id) db.jobs
    then raise unique_violation db
    else (ok tt, record db { jobs = db.jobs ++ job ∷ [] })

unfoldable pub create_job : Text → ℕ → JobRequest → Exec CronDb Text
unfolding ensure_choice insert_job lit
create_job job_id now r = do
  job_type ← lift (ensure_choice r.job_type (lit "job_type") job_types)
  action_type ← lift (ensure_choice r.action_type (lit "action_type") action_types)
  misfire_policy ← lift (ensure_choice r.misfire_policy (lit "misfire_policy") misfire_policies)
  insert_job (record {
    job_id = job_id;
    name = strip r.name;
    job_type = job_type;
    schedule = strip r.schedule;
    action_type = action_type;
    action_payload = r.action_payload;
    enabled = r.enabled;
    auto_delete = r.auto_delete;
    misfire_policy = misfire_policy;
    created_by = strip r.created_by;
    created_at = now;
    updated_at = now;
    last_run_at = r.last_run_at;
    next_run_at = r.next_run_at;
    run_count = 0;
    failure_count = 0;
    metadata = r.metadata;
  })
  pure job_id

unfoldable pub get_job_by_name : Text → CronDb → Option Job
unfolding fetchrow has_name
get_job_by_name name db = fetchrow (has_name (strip name)) db.jobs

unfoldable pub get_job_by_id : Text → CronDb → Option Job
unfolding fetchrow has_job_id
get_job_by_id job_id db = fetchrow (has_job_id (strip job_id)) db.jobs

-- `max(1, int(limit or default))`
unfoldable pub normalized_limit : ℕ → ℕ → ℕ
normalized_limit limit default = max 1 (if eqb limit 0 then default else limit)

-- The WHERE clause: `none` is no condition.
unfoldable pub matches_job : Option Bool → Option Text → Job → Bool
matches_job enabled job_type job =
    (elim enabled [ none ↦ true | some true ↦ job.enabled | some false ↦ not job.enabled ])
    && (elim job_type [ none ↦ true | some t ↦ job.job_type == t ])

unfoldable pub created_later : Job → Job → Bool
created_later x y = leb y.created_at x.created_at

unfoldable pub listed_jobs : Option Bool → Option Text → ℕ → CronDb → List Job
unfolding select matches_job order_by created_later normalized_limit
listed_jobs enabled job_type limit db =
    take (normalized_limit limit 100)
      (order_by created_later (select (matches_job enabled job_type) db.jobs))

unfoldable pub list_jobs : Option Bool → Option Text → ℕ → CronDb → Result (List Job)
unfolding ensure_choice listed_jobs lit
list_jobs enabled none limit db = ok (listed_jobs enabled none limit db)
list_jobs enabled (some job_type) limit db =
    elim (ensure_choice job_type (lit "job_type") job_types) [
      | err e ↦ err e
      | ok t ↦ ok (listed_jobs enabled (some t) limit db)
    ]

-- The columns that an UPDATE sets.
pub record JobChanges : Type 0 where
  pub schedule : Option Text
  pub action_type : Option Text
  pub action_payload : Option (Dict Json)
  pub enabled : Option Bool
  pub auto_delete : Option Bool
  pub misfire_policy : Option Text
  pub last_run_at : Option (Option ℕ)
  pub next_run_at : Option (Option ℕ)
  pub run_count : Option ℕ
  pub failure_count : Option ℕ
  pub metadata : Option (Dict Json)

abbrev pub no_changes : JobChanges
no_changes = record {
  schedule = none;
  action_type = none;
  action_payload = none;
  enabled = none;
  auto_delete = none;
  misfire_policy = none;
  last_run_at = none;
  next_run_at = none;
  run_count = none;
  failure_count = none;
  metadata = none;
}

unfoldable pub is_no_change : JobChanges → Bool
is_no_change c = not (
    is_some c.schedule
    || is_some c.action_type
    || is_some c.action_payload
    || is_some c.enabled
    || is_some c.auto_delete
    || is_some c.misfire_policy
    || is_some c.last_run_at
    || is_some c.next_run_at
    || is_some c.run_count
    || is_some c.failure_count
    || is_some c.metadata)

-- A choice is checked if it is set.
unfoldable pub choice_if_set : Option Text → Text → List Text → Result (Option Text)
unfolding ensure_choice
choice_if_set none field_name allowed = ok none
choice_if_set (some value) field_name allowed = elim (ensure_choice value field_name allowed) [
  | err e ↦ err e
  | ok t ↦ ok (some t)
]

unfoldable pub changed_job : ℕ → JobChanges → Job → Job
changed_job now c job = record job {
  schedule = coalesce c.schedule job.schedule;
  action_type = coalesce c.action_type job.action_type;
  action_payload = coalesce c.action_payload job.action_payload;
  enabled = coalesce c.enabled job.enabled;
  auto_delete = coalesce c.auto_delete job.auto_delete;
  misfire_policy = coalesce c.misfire_policy job.misfire_policy;
  last_run_at = coalesce c.last_run_at job.last_run_at;
  next_run_at = coalesce c.next_run_at job.next_run_at;
  run_count = coalesce c.run_count job.run_count;
  failure_count = coalesce c.failure_count job.failure_count;
  metadata = coalesce c.metadata job.metadata;
  updated_at = now;
}

-- A name is unique, so that the UPDATE reports one row if there is one.
unfoldable pub set_job : ℕ → Text → JobChanges → Exec CronDb Bool
unfolding exists_row has_name update changed_job
set_job now name c db = (
  ok (exists_row (has_name (strip name)) db.jobs),
  record db { jobs = update (has_name (strip name)) (changed_job now c) db.jobs },
)

unfoldable pub update_job : ℕ → Text → JobChanges → Exec CronDb Bool
unfolding is_no_change choice_if_set set_job lit
update_job now name c =
    if is_no_change c
    then pure false
    else lift (choice_if_set c.action_type (lit "action_type") action_types) >>= λ action_type.
        lift (choice_if_set c.misfire_policy (lit "misfire_policy") misfire_policies) >>= λ policy.
        set_job now name (record c { action_type = action_type; misfire_policy = policy })

-- DELETE of a job, with the runs that refer to it (ON DELETE CASCADE).
unfoldable pub delete_job : Text → Exec CronDb Bool
unfolding exists_row fetchrow select has_name of_job
delete_job name db = elim (fetchrow (has_name (strip name)) db.jobs) [
  | none ↦ (ok false, db)
  | some job ↦ (
    ok true,
    record {
      jobs = select (λ j. not (has_name (strip name) j)) db.jobs;
      runs = select (λ r. not (of_job job.job_id r)) db.runs;
    },
  )
]
