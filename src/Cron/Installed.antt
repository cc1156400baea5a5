-- ===== src/Cron/Installed.antt =====
-- scheduler_cron/bootstrap_ops.py: a second bootstrap creates nothing.
use orchestra_threads.Prelude.{
  ℕ, suc, ◌≡◌, refl, sym, ◌∙◌, Bool, true, false, ◌||◌, Option, none, some, List, [], ◌∷◌, ◌++◌,
  map, ◌⊎◌, inl, inr, Result, ok, err, Error, Exec, ◌>>=◌, Option-cases, pure, arith, is_some, All,
  subst,
}
use orchestra_threads.Text.{Text, ◌==◌, strip, eq_refl}
use orchestra_threads.Sql.{exists_row, fetchrow}
use orchestra_threads.Sql.Laws.{exists_row-append}
use orchestra_threads.Cron.Rows.{Job, CronDb}
use orchestra_threads.Cron.Jobs.{create_job, update_job, get_job_by_name, get_job_by_id, has_name}
use orchestra_threads.Cron.Engine.{SchedulerApi, Engine, in_db}
use orchestra_threads.Cron.Bootstrap.{
  JobDefinition, job_payload, create_payload, placed, add_to, add_job, hand_over, refresh_existing,
  create_missing, apply_to, apply_job, gathered, bootstrap_jobs, is_enabled, named_if,
}
use orchestra_threads.Cron.Names.{names, has, update_job-names, create_job-names}

module _ {Sched : Type 0} (api : SchedulerApi Sched) where
  -- A sequence keeps what its parts keep of the store.
  kept :
      {A B : Type 0} (P : CronDb → Type 0) (p : Result A × Engine Sched)
      (f : A → Exec (Engine Sched) B)
      → P p.1.db
      → ((a : A) (e : Engine Sched) → P e.db → P (f a e).1.db)
      → P (◌>>=◌ (λ (e : Engine Sched). p) f p.1).1.db
  kept P (ok a, e) f h k = k a e h
  kept P (err x, e) f h k = h

  placed-db : (r : Result Sched) (e : Engine Sched) → (placed api r e).1.db ≡ e.db
  unfolding placed
  placed-db (ok s) e = refl
  placed-db (err x) e = refl

  add_to-db : (o : Option Sched) (job : Job) (e : Engine Sched) → (add_to api o job e).1.db ≡ e.db
  unfolding add_to
  add_to-db none job e = refl
  add_to-db (some s) job e = placed-db _ e

  -- The engine does not write to the store.
  hand_over-keeps :
      (P : CronDb → Type 0) (o : Option Job) (on : Bool) (e : Engine Sched)
      → P e.db
      → P (hand_over api o on e).1.db
  unfolding hand_over add_job
  hand_over-keeps P none on e h = h
  hand_over-keeps P (some job) false e h = h
  hand_over-keeps P (some job) true e h =
      kept P (add_to api e.scheduler job e) (λ _. pure true) (rw (add_to-db e.scheduler job e) h)
        (λ a u k. k)

  refresh-names :
      (now : ℕ) (d : JobDefinition) (e : Engine Sched)
      → names (refresh_existing api now d e).1.db ≡ names e.db
  unfolding refresh_existing in_db
  refresh-names now d e =
      let P : CronDb → Type 0 = λ db. names db ≡ names e.db in
      kept P (in_db api (update_job now d.name (job_payload d)) e) _
        (update_job-names now d.name (job_payload d) e.db)
        (λ a u h.
          kept P
            (hand_over api (get_job_by_name d.name u.db)
              (is_enabled api (get_job_by_name d.name u.db)) u)
            (λ _. pure none)
            (hand_over-keeps P (get_job_by_name d.name u.db)
              (is_enabled api (get_job_by_name d.name u.db)) u h)
            (λ b v k. k))

  created-names :
      (job_id : Text) (now : ℕ) (d : JobDefinition) (e : Engine Sched)
      → (names (create_missing api job_id now d e).1.db ≡ names e.db ++ strip d.name ∷ [])
        ⊎ ((names (create_missing api job_id now d e).1.db ≡ names e.db)
            × ((x : Error) × ((create_missing api job_id now d e).0 ≡ err x)))
  unfolding create_missing in_db create_payload
  created-names job_id now d e = elim (create_job-names job_id now (create_payload d) e.db) [
    | inr (x, k) ↦ inr (rw k (refl, (x, refl)))
    | inl (done, k) ↦
        let P : CronDb → Type 0 = λ db. names db ≡ names e.db ++ strip d.name ∷ [] in
        inl (
          kept P (in_db api (create_job job_id now (create_payload d)) e) _ k (λ a u h.
            kept P (hand_over api (get_job_by_id a u.db) (is_enabled api (get_job_by_id a u.db)) u)
              (λ handed. pure (named_if api handed d.name))
              (hand_over-keeps P (get_job_by_id a u.db) (is_enabled api (get_job_by_id a u.db)) u h)
              (λ b v l. l)))
  ]

  has-found :
      (name : Text) (js : List Job)
      → has name (map (λ (j : Job). j.name) js) ≡ is_some (fetchrow (has_name name) js)
  unfolding exists_row fetchrow has_name
  has-found name [] = refl
  has-found name (j ∷ js) = ground (arith, has-found name js)

  -- What applying a definition does to the names: nothing if its name is there; it is appended if
  -- not, unless an error is raised.
  applied :
      (job_id : Text) (now : ℕ) (d : JobDefinition) (e : Engine Sched)
      → ((has (strip d.name) (names e.db) ≡ true)
          × (names (apply_job api job_id now d e).1.db ≡ names e.db))
        ⊎ ((has (strip d.name) (names e.db) ≡ false)
            × ((names (apply_job api job_id now d e).1.db ≡ names e.db ++ strip d.name ∷ [])
                ⊎ ((names (apply_job api job_id now d e).1.db ≡ names e.db)
                    × ((x : Error) × ((apply_job api job_id now d e).0 ≡ err x)))))
  unfolding apply_job apply_to get_job_by_name
  applied job_id now d e = elim (Option-cases (fetchrow (has_name (strip d.name)) e.db.jobs)) [
    | inr (j, k) ↦
        inl (has-found (strip d.name) e.db.jobs ∙ rw k refl, rw k (refresh-names now d e))
    | inl k ↦
        inr (has-found (strip d.name) e.db.jobs ∙ rw k refl, rw k (created-names job_id now d e))
  ]

  has-append : (n m : Text) (ns : List Text) → has n (ns ++ m ∷ []) ≡ (has n ns || (m == n))
  has-append n m ns = exists_row-append (λ (k : Text). k == n) ns m

  -- No name is lost.
  apply-keeps :
      (job_id : Text) (now : ℕ) (d : JobDefinition) (e : Engine Sched) (n : Text)
      → has n (names e.db) ≡ true
      → has n (names (apply_job api job_id now d e).1.db) ≡ true
  apply-keeps job_id now d e n h = elim (applied job_id now d e) [
    | inl (k, same) ↦ rw same h
    | inr (k, inl more) ↦ rw more (ground (arith, has-append n (strip d.name) (names e.db), h))
    | inr (k, inr (same, (x, raised))) ↦ rw same h
  ]

  apply-ok :
      (job_id : Text) (now : ℕ) (d : JobDefinition) (e : Engine Sched) (r : Option Text)
      → (apply_job api job_id now d e).0 ≡ ok r
      → has (strip d.name) (names (apply_job api job_id now d e).1.db) ≡ true
  apply-ok job_id now d e r h = elim (applied job_id now d e) [
    | inl (k, same) ↦ rw same k
    | inr (k, inl more) ↦ rw more (
        ground
          (arith, has-append (strip d.name) (strip d.name) (names e.db), eq_refl (strip d.name)))
    | inr (k, inr (same, (x, raised))) ↦ absurd (cc (h, raised))
  ]

  apply-same :
      (job_id : Text) (now : ℕ) (d : JobDefinition) (e : Engine Sched)
      → has (strip d.name) (names e.db) ≡ true
      → names (apply_job api job_id now d e).1.db ≡ names e.db
  apply-same job_id now d e h = elim (applied job_id now d e) [
    | inl (k, same) ↦ same
    | inr (k, rest) ↦ absurd (cc (h, k))
  ]

  abbrev pub Installed : List Text → JobDefinition → Type 0
  Installed ns d = has (strip d.name) ns ≡ true

  module _ (job_id : ℕ → Text) where
    bootstrap-keeps :
        (n now : ℕ) (ds : List JobDefinition) (e : Engine Sched) (name : Text)
        → has name (names e.db) ≡ true
        → has name (names (bootstrap_jobs api job_id n now ds e).1.db) ≡ true
    unfolding bootstrap_jobs
    bootstrap-keeps n now [] e name h = h
    bootstrap-keeps n now (d ∷ ds) e name h =
        bootstrap-keeps (suc n) now ds (apply_job api (job_id n) now d e).1 name
          (apply-keeps (job_id n) now d e name h)

    gathered-ok :
        (r : Result (Option Text)) (rest : Result (List Text)) (created : List Text)
        → gathered api r rest ≡ ok created
        → ((o : Option Text) × (r ≡ ok o)) × ((cs : List Text) × (rest ≡ ok cs))
    unfolding gathered
    gathered-ok (ok o) (ok cs) created h = ((o, refl), (cs, refl))
    gathered-ok (ok o) (err x) created h = absurd (cc h)
    gathered-ok (err x) rest created h = absurd (cc h)

    bootstrap-Installed :
        (n now : ℕ) (ds : List JobDefinition) (e : Engine Sched) (created : List Text)
        → (bootstrap_jobs api job_id n now ds e).0 ≡ ok created
        → All (Installed (names (bootstrap_jobs api job_id n now ds e).1.db)) ds
    unfolding bootstrap_jobs
    bootstrap-Installed n now [] e created h = tt
    bootstrap-Installed n now (d ∷ ds) e created h =
        let u = (apply_job api (job_id n) now d e).1 in
        let ((o, first), (cs, rest)) =
          gathered-ok (apply_job api (job_id n) now d e).0
            (bootstrap_jobs api job_id (suc n) now ds u).0 created h in
        (
          bootstrap-keeps (suc n) now ds u (strip d.name) (apply-ok (job_id n) now d e o first),
          bootstrap-Installed (suc n) now ds u cs rest,
        )

    bootstrap-same :
        (n now : ℕ) (ds : List JobDefinition) (e : Engine Sched)
        → All (Installed (names e.db)) ds
        → names (bootstrap_jobs api job_id n now ds e).1.db ≡ names e.db
    unfolding bootstrap_jobs
    bootstrap-same n now [] e h = refl
    bootstrap-same n now (d ∷ ds) e h =
        let same = apply-same (job_id n) now d e h.0 in
        bootstrap-same (suc n) now ds (apply_job api (job_id n) now d e).1
          (subst (λ ns. All (Installed ns) ds) (sym same) h.1)
        ∙ same

  -- When a bootstrap of some definitions ends without an error, every one of them has a job of its name,
  -- and a further bootstrap of them, with whatever new ids and at any time, creates no job and removes none.
  pub second_bootstrap_creates_nothing :
      (job_id next_id : ℕ → Text) (now later : ℕ) (ds : List JobDefinition) (e : Engine Sched)
      → (created : List Text) → (bootstrap_jobs api job_id 0 now ds e).0 ≡ ok created
      → let u = (bootstrap_jobs api job_id 0 now ds e).1 in
        All (Installed (names u.db)) ds
        × (names (bootstrap_jobs api next_id 0 later ds u).1.db ≡ names u.db)
  second_bootstrap_creates_nothing job_id next_id now later ds e created h =
      let there = bootstrap-Installed job_id 0 now ds e created h in
      (there, bootstrap-same next_id 0 later ds (bootstrap_jobs api job_id 0 now ds e).1 there)
