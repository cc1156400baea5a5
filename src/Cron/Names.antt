-- ===== src/Cron/Names.antt =====
-- scheduler_cron/store_jobs.py: what the statements do to the names of the jobs.
use orchestra_threads.Prelude.{
  ℕ, ◌≡◌, refl, Bool, ◌||◌, List, [], ◌∷◌, ◌++◌, map, ◌⊎◌, inl, inr, ok, err, Error, Bool-cases,
  Result-cases, unique_violation, arith,
}
use mathlib.Core.List.{map-append}
use orchestra_threads.Text.{Text, ◌==◌, lit, strip}
use orchestra_threads.Sql.{exists_row, update}
use orchestra_threads.Cron.Rows.{
  Job, CronDb, ensure_choice, job_types, action_types, misfire_policies,
}
use orchestra_threads.Cron.Jobs.{
  JobRequest, JobChanges, create_job, insert_job, update_job, set_job, is_no_change, choice_if_set,
  changed_job, has_name, has_job_id,
}

-- The names of the jobs, in the order of their rows.
abbrev pub names : CronDb → List Text
names db = map (λ (j : Job). j.name) db.jobs

abbrev pub has : Text → List Text → Bool
has name ns = exists_row (λ n. n == name) ns

update-names :
    (p : Job → Bool) (f : Job → Job) (js : List Job)
    → ((j : Job) → (f j).name ≡ j.name)
    → map (λ (j : Job). j.name) (update p f js) ≡ map (λ (j : Job). j.name) js
unfolding update
update-names p f [] h = refl
update-names p f (j ∷ js) h = ground (arith, h j, update-names p f js h)

set_job-names :
    (now : ℕ) (name : Text) (c : JobChanges) (db : CronDb)
    → names (set_job now name c db).1 ≡ names db
unfolding set_job changed_job
set_job-names now name c db =
    update-names (has_name (strip name)) (changed_job now c) db.jobs (λ j. refl)

pub update_job-names :
    (now : ℕ) (name : Text) (c : JobChanges) (db : CronDb)
    → names (update_job now name c db).1 ≡ names db
unfolding update_job
update_job-names now name c db = elim (Bool-cases (is_no_change c)) [
  | inl e ↦ rw (e, update_job) refl
  | inr e ↦ elim (Result-cases (choice_if_set c.action_type (lit "action_type") action_types)) [
    | inr (x, k) ↦ rw (e, k, update_job) refl
    | inl (a, k) ↦
        elim (Result-cases
          (choice_if_set c.misfire_policy (lit "misfire_policy") misfire_policies)) [
            | inr (x, l) ↦ rw (e, k, l, update_job) refl
            | inl (b, l) ↦
                rw (e, k, l, update_job)
                  (set_job-names now name (record c { action_type = a; misfire_policy = b }) db)
          ]
  ]
]

-- A job is created with its stripped name at the end, or nothing is.
pub create_job-names :
    (job_id : Text) (now : ℕ) (r : JobRequest) (db : CronDb)
    → (((create_job job_id now r db).0 ≡ ok job_id)
        × (names (create_job job_id now r db).1 ≡ names db ++ strip r.name ∷ []))
      ⊎ ((x : Error) × (create_job job_id now r db ≡ (err x, db)))
unfolding create_job insert_job
create_job-names job_id now r db =
    elim (Result-cases (ensure_choice r.job_type (lit "job_type") job_types)) [
      | inr (x, e) ↦ inr (x, rw (e, create_job) refl)
      | inl (a, e) ↦
          elim (Result-cases (ensure_choice r.action_type (lit "action_type") action_types)) [
            | inr (x, k) ↦ inr (x, rw (e, k, create_job) refl)
            | inl (b, k) ↦
                elim (Result-cases
                  (ensure_choice r.misfire_policy (lit "misfire_policy") misfire_policies)) [
                    | inr (x, l) ↦ inr (x, rw (e, k, l, create_job) refl)
                    | inl (c, l) ↦
                        elim (Bool-cases (
                          exists_row (has_name (strip r.name)) db.jobs
                          || exists_row (has_job_id job_id) db.jobs)) [
                            | inl q ↦
                                inr (unique_violation, rw (e, k, l, q, create_job, insert_job) refl)
                            | inr q ↦ inl (
                                rw (e, k, l, q, create_job, insert_job)
                                  (refl, map-append _ db.jobs _))
                          ]
                  ]
          ]
    ]
