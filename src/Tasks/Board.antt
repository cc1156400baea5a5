-- ===== src/Tasks/Board.antt =====
-- task_registry/store_tasks.py, store_tasks_filters.py, store_tasks_models.py: the tasks.
use orchestra_threads.Prelude.{
  ℕ, max, Bool, true, false, ◌&&◌, ◌||◌, Option, none, some, List, [], ◌∷◌, ◌++◌, ok, Exec,
  coalesce, take, ltb, eqb, leb,
}
use orchestra_threads.Text.{Text, ◌==◌}
use orchestra_threads.Sql.{select, fetchrow, exists_row, update, order_by}
use orchestra_threads.Json.{Json}
use orchestra_threads.Tasks.Rows.{Task, Registry}

pub record TaskCreateRequest : Type 0 where
  pub title : Text
  pub description : Option Text
  pub created_by : Text
  pub status : Text
  pub assignee : Option Text
  pub priority : Text
  pub acceptance_criteria : Option Text
  pub linked_thread_id : Option Text
  pub blocked_by : Option (List Text)
  pub artifacts : Option (List Json)

unfoldable pub create_task : Text → ℕ → TaskCreateRequest → Exec Registry Task
create_task task_id now r db =
    let task : Task = record {
      task_id = task_id;
      title = r.title;
      description = r.description;
      status = r.status;
      assignee = r.assignee;
      created_by = r.created_by;
      priority = r.priority;
      acceptance_criteria = r.acceptance_criteria;
      linked_thread_id = r.linked_thread_id;
      blocked_by = coalesce r.blocked_by [];
      artifacts = coalesce r.artifacts [];
      created_at = now;
      updated_at = now;
    } in
    (ok task, record db { tasks = db.tasks ++ task ∷ [] })

unfoldable pub has_task_id : Text → Task → Bool
has_task_id task_id task = task.task_id == task_id

unfoldable pub get_task : Text → Registry → Option Task
unfolding fetchrow has_task_id
get_task task_id db = fetchrow (has_task_id task_id) db.tasks

-- A condition of the query, if the filter is given. NULL equals nothing.
unfoldable pub passes : Option Text → Option Text → Bool
passes none value = true
passes (some f) none = false
passes (some f) (some v) = v == f

unfoldable pub matches_task : Option Text → Option Text → Option Text → Task → Bool
unfolding passes
matches_task status assignee created_by task =
    passes status (some task.status)
    && passes assignee task.assignee
    && passes created_by (some task.created_by)

-- ORDER BY updated_at DESC, created_at DESC
unfoldable pub updated_before : Task → Task → Bool
updated_before x y =
    ltb y.updated_at x.updated_at
    || (eqb y.updated_at x.updated_at && leb y.created_at x.created_at)

unfoldable pub list_tasks : Option Text → Option Text → Option Text → ℕ → Registry → List Task
unfolding order_by updated_before select matches_task
list_tasks status assignee created_by limit db =
    take (max 1 limit)
      (order_by updated_before (select (matches_task status assignee created_by) db.tasks))

-- UPDATE tasks … WHERE id = … RETURNING 1
unfoldable pub set_task : Text → (Task → Task) → Exec Registry Bool
unfolding exists_row has_task_id update
set_task task_id f db = (
  ok (exists_row (has_task_id task_id) db.tasks),
  record db { tasks = update (has_task_id task_id) f db.tasks },
)

unfoldable pub update_task_status : ℕ → Text → Text → Exec Registry Bool
unfolding set_task
update_task_status now task_id status =
    set_task task_id (λ t. record t { status = status; updated_at = now })

unfoldable pub assign_task : ℕ → Text → Option Text → Exec Registry Bool
unfolding set_task
assign_task now task_id assignee =
    set_task task_id (λ t. record t { assignee = assignee; updated_at = now })

unfoldable pub link_thread : ℕ → Text → Option Text → Exec Registry Bool
unfolding set_task
link_thread now task_id thread_id =
    set_task task_id (λ t. record t { linked_thread_id = thread_id; updated_at = now })

unfoldable pub add_artifact : ℕ → Text → Json → Exec Registry Bool
unfolding set_task
add_artifact now task_id artifact =
    set_task task_id (λ t. record t { artifacts = t.artifacts ++ artifact ∷ []; updated_at = now })
