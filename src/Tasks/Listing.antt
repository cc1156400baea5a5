-- ===== src/Tasks/Listing.antt =====
-- task_registry/store_tasks.py, store_tasks_filters.py: what a list of tasks holds.
use orchestra_threads.Prelude.{
  ℕ, ◌≤◌, ◌<◌, min, max, ◌⊎◌, ◌≡◌, refl, ap, ◌∙◌, true, false, Option, none, some, List, ◌++◌,
  arith, All, All-both, length, length-take, subst,
}
use mathlib.Core.Option
use orchestra_threads.Text.{Text, ◌==◌, eq_refl, eq→path}
use orchestra_threads.Sql.{select, order_by}
use orchestra_threads.Sql.Laws.{All-select, All-select-true, All-order_by}
use orchestra_threads.Sql.Sorting.{
  Among, Sorted, All-Among, Among-select, Among-order_by, take-rest, Sorted-order_by,
}
use orchestra_threads.Tasks.Rows.{Task, Registry}
use orchestra_threads.Tasks.Board.{passes, matches_task, updated_before, list_tasks}

-- A filter that is given names the value of the column.
abbrev pub Asks : Option Text → Option Text → Type 0
Asks none value = Unit
Asks (some f) value = value ≡ some f

abbrev pub IsAskedFor : Option Text → Option Text → Option Text → Task → Type 0
IsAskedFor status assignee created_by t =
    Asks status (some t.status) × Asks assignee t.assignee × Asks created_by (some t.created_by)

-- `x` was updated later than `y`, or at the same time and was not created before it.
abbrev pub IsNewer : Task → Task → Type 0
IsNewer x y =
    (y.updated_at < x.updated_at) ⊎ ((x.updated_at ≡ y.updated_at) × (y.created_at ≤ x.created_at))

passes-Asks : (f v : Option Text) → passes f v ≡ true → Asks f v
unfolding passes
passes-Asks none v h = tt
passes-Asks (some f) none h = absurd (cc h)
passes-Asks (some f) (some v) h = ap some (eq→path v f h)

Asks-passes : (f v : Option Text) → Asks f v → passes f v ≡ true
unfolding passes
Asks-passes none v h = refl
Asks-passes (some f) none h = absurd (cc h)
Asks-passes (some f) (some v) h = ap (λ w. w == f) (Option.some_inj.0 h) ∙ eq_refl f

matches-IsAskedFor :
    (status assignee created_by : Option Text) (t : Task)
    → matches_task status assignee created_by t ≡ true
    → IsAskedFor status assignee created_by t
unfolding matches_task
matches-IsAskedFor status assignee created_by t h = (
  passes-Asks status (some t.status) (ground (arith, h)),
  passes-Asks assignee t.assignee (ground (arith, h)),
  passes-Asks created_by (some t.created_by) (ground (arith, h)),
)

IsAskedFor-matches :
    (status assignee created_by : Option Text) (t : Task)
    → IsAskedFor status assignee created_by t
    → matches_task status assignee created_by t ≡ true
unfolding matches_task
IsAskedFor-matches status assignee created_by t (a, b, c) = ground (
  arith,
  Asks-passes status (some t.status) a,
  Asks-passes assignee t.assignee b,
  Asks-passes created_by (some t.created_by) c,
)

newer : (x y : Task) → updated_before x y ≡ true → IsNewer x y
unfolding updated_before
newer x y h = ground (arith, h)

not-IsNewer : (x y : Task) → updated_before x y ≡ false → IsNewer y x
unfolding updated_before
not-IsNewer x y h = ground (arith, h)

IsNewer-trans : (x y z : Task) → IsNewer x y → IsNewer y z → IsNewer x z
IsNewer-trans x y z h k = ground (arith, h, k)

-- The tasks that are asked for, with those that the limit leaves out, the newest first.
abbrev pub Lists :
    Option Text → Option Text → Option Text → ℕ → List Task → List Task → List Task → Type 0
Lists status assignee created_by limit tasks listed rest =
    (length listed ≡ min (max 1 limit) (length (listed ++ rest)))
    × Sorted IsNewer (listed ++ rest)
    × All (λ t. IsAskedFor status assignee created_by t × Among t tasks) (listed ++ rest)
    × ((t : Task)
        → IsAskedFor status assignee created_by t
        → Among t tasks
        → Among t (listed ++ rest))

-- A list of tasks begins the tasks of the board that have the status, the assignee and the creator asked
-- for, all of them and no others, the last updated first; it is cut after `limit` of them, or after one if
-- `limit` is 0.
pub list_tasks_lem :
    (status assignee created_by : Option Text) (limit : ℕ) (db : Registry)
    → (rest : List Task) × Lists status assignee created_by limit db.tasks
        (list_tasks status assignee created_by limit db)
        rest
unfolding list_tasks
list_tasks_lem status assignee created_by limit db =
    let matches = matches_task status assignee created_by in
    let found = select matches db.tasks in
    let sorted = order_by updated_before found in
    let (rest, split) = take-rest (max 1 limit) sorted in
    (
      rest,
      (
        omega (arith, length-take (max 1 limit) sorted, ap length split),
        subst (Sorted IsNewer) split
            (Sorted-order_by updated_before IsNewer newer not-IsNewer IsNewer-trans found),
        subst (All (λ t. IsAskedFor status assignee created_by t × Among t db.tasks)) split (
            All-order_by _ updated_before found (
              All-both _ _ _
                (All-select-true _ matches (matches-IsAskedFor status assignee created_by) db.tasks)
                (All-select _ matches db.tasks (All-Among db.tasks)))),
        λ t asked there. subst (Among t) split (
            Among-order_by updated_before t found (
              Among-select matches t db.tasks
                (IsAskedFor-matches status assignee created_by t asked) there)),
      ),
    )
