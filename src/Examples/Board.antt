-- ===== src/Examples/Board.antt =====
-- The theorems on task_registry, at a task with a checklist.
use orchestra_threads.Prelude.{
  ◌≡◌, refl, true, false, none, some, List, [], ◌∷◌, ◌++◌, ok, All, map, not,
}
use orchestra_threads.Text.{lit, is_empty}
use orchestra_threads.Sql.{select}
use orchestra_threads.Json.{null}
use orchestra_threads.Tasks.Rows.{Task, Registry}
use orchestra_threads.Tasks.Board.{
  TaskCreateRequest, list_tasks, update_task_status, assign_task, link_thread, add_artifact,
}
use orchestra_threads.Tasks.Checklists.{ChecklistEntry, get_checklist, task_create}
use orchestra_threads.Tasks.Laws.{Sets, entry_of, task_updates_lem, checklist_reads_back}
use orchestra_threads.Tasks.Listing.{Lists, list_tasks_lem}

abbrev request : TaskCreateRequest
unfolding lit
request = record {
  title = lit "t";
  description = none;
  created_by = lit "c";
  status = lit "draft";
  assignee = none;
  priority = lit "normal";
  acceptance_criteria = none;
  linked_thread_id = none;
  blocked_by = none;
  artifacts = none;
}

abbrev empty : Registry
empty = record { tasks = []; items = []; comments = [] }

abbrev entries : List ChecklistEntry
unfolding lit
entries =
    record { item_id = lit "b"; label = lit "first"; checked = false }
    ∷ record { item_id = lit "x"; label = []; checked = true }
    ∷ record { item_id = lit "a"; label = lit "second"; checked = true }
    ∷ []

abbrev board : Registry
unfolding lit
board = (task_create (lit "i") 1 request entries empty).1

checklist_reads_back_example :
    let after = task_create (lit "i") 1 request entries empty in
    (map entry_of (get_checklist (lit "i") after.1) ≡ select (λ e. not (is_empty e.label)) entries)
    × All (λ i. (i.task_id ≡ lit "i") × (i.checked_at ≡ none)) (get_checklist (lit "i") after.1)
    × ((task : Task) × (after.0 ≡ ok task))
unfolding select
checklist_reads_back_example = checklist_reads_back (lit "i") 1 request entries empty refl

list_tasks_example :
    (rest : List Task) × Lists
      (some (lit "draft"))
      none
      none
      5
      board.tasks
      (list_tasks (some (lit "draft")) none none 5 board)
      rest
list_tasks_example = list_tasks_lem (some (lit "draft")) none none 5 board

task_updates_example :
    Sets board
      (lit "i")
      (λ t. record t { status = lit "done"; updated_at = 2 })
      (update_task_status 2 (lit "i") (lit "done"))
    × Sets board
        (lit "i")
        (λ t. record t { assignee = none; updated_at = 2 })
        (assign_task 2 (lit "i") none)
    × Sets board
        (lit "i")
        (λ t. record t { linked_thread_id = none; updated_at = 2 })
        (link_thread 2 (lit "i") none)
    × Sets board
        (lit "i")
        (λ t. record t { artifacts = t.artifacts ++ null ∷ []; updated_at = 2 })
        (add_artifact 2 (lit "i") null)
task_updates_example = task_updates_lem 2 (lit "i") (lit "done") none none null board
