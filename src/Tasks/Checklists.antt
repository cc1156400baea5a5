-- ===== src/Tasks/Checklists.antt =====
-- task_registry/store_checklists.py, store_comments.py, mcp/tools_create.py: the items of a checklist,
-- and the comments. `dumps` is `json.dumps`.
use orchestra_threads.Prelude.{
  ℕ, suc, Bool, ◌&&◌, ◌||◌, Option, none, some, List, [], ◌∷◌, ◌++◌, ok, Exec, coalesce, ltb, eqb,
  raise, foreign_key_violation, if◌then◌else◌, ◌>>=◌, ◌>>◌, pure,
}
use orchestra_threads.Text.{Text, ◌==◌, text_le, is_empty}
use orchestra_threads.Sql.{select, exists_row, update, order_by}
use orchestra_threads.Json.{Json, string, array, array_items}
use orchestra_threads.Tasks.Rows.{Task, ChecklistItem, TaskComment, Registry}
use orchestra_threads.Tasks.Board.{TaskCreateRequest, create_task, has_task_id}

unfoldable pub of_task : Text → ChecklistItem → Bool
of_task task_id item = item.task_id == task_id

-- ORDER BY sort_order ASC, id ASC
unfoldable pub sorted_before : ChecklistItem → ChecklistItem → Bool
sorted_before x y =
    ltb x.sort_order y.sort_order || (eqb x.sort_order y.sort_order && text_le x.item_id y.item_id)

unfoldable pub get_checklist : Text → Registry → List ChecklistItem
unfolding order_by sorted_before select of_task
get_checklist task_id db = order_by sorted_before (select (of_task task_id) db.items)

unfoldable pub has_item_id : Text → ChecklistItem → Bool
has_item_id item_id item = item.item_id == item_id

unfoldable pub checked_item : ℕ → Bool → Option Text → ChecklistItem → ChecklistItem
checked_item now checked checked_by item = record item {
  checked = checked;
  checked_by = checked_by;
  checked_at = if checked then some now else none;
}

unfoldable pub update_checklist_item : ℕ → Text → Bool → Option Text → Exec Registry Bool
unfolding exists_row has_item_id update checked_item
update_checklist_item now item_id checked checked_by db = (
  ok (exists_row (has_item_id item_id) db.items),
  record db { items = update (has_item_id item_id) (checked_item now checked checked_by) db.items },
)

-- An entry of the argument `checklist`, and the id that its row gets if it has one.
pub record ChecklistEntry : Type 0 where
  pub item_id : Text
  pub label : Text
  pub checked : Bool

-- `sort_order` counts the entries without a label too, which are left out.
unfoldable pub checklist_rows : Text → ℕ → List ChecklistEntry → List ChecklistItem
checklist_rows task_id sort_order [] = []
checklist_rows task_id sort_order (e ∷ entries) =
    let rest = checklist_rows task_id (suc sort_order) entries in
    if is_empty e.label
    then rest
    else record {
      item_id = e.item_id;
      task_id = task_id;
      label = e.label;
      checked = e.checked;
      checked_by = none;
      checked_at = none;
      sort_order = sort_order;
    }
      ∷ rest

-- The INSERT of rows that refer to one task; nothing is sent if there are none.
unfoldable pub insert_rows : Text → List ChecklistItem → Exec Registry (Unit {0})
unfolding exists_row has_task_id
insert_rows task_id [] db = (ok tt, db)
insert_rows task_id (row ∷ rows) db =
    if exists_row (has_task_id task_id) db.tasks
    then (ok tt, record db { items = db.items ++ row ∷ rows })
    else raise foreign_key_violation db

unfoldable pub insert_checklist_items : Text → List ChecklistEntry → Exec Registry (Unit {0})
unfolding checklist_rows insert_rows
insert_checklist_items task_id entries = insert_rows task_id (checklist_rows task_id 0 entries)

-- The tool `task_create`: the task, and then its checklist.
unfoldable pub task_create : Text → ℕ → TaskCreateRequest → List ChecklistEntry → Exec Registry Task
unfolding create_task insert_checklist_items
task_create task_id now r entries = do
  task ← create_task task_id now r
  insert_checklist_items task.task_id entries
  pure task

-- The codec of the connection turns every value of a `jsonb` argument into JSON, also a text that
-- `json.dumps` has made.
unfoldable pub add_comment :
    (Json → Text) → Text → ℕ → Text → Text → Text → Option (List Json) → Exec Registry TaskComment
unfolding exists_row has_task_id array_items
add_comment dumps comment_id now task_id author body artifacts db =
    let comment : TaskComment = record {
      comment_id = comment_id;
      task_id = task_id;
      author = author;
      body = body;
      artifacts = string (dumps (array (array_items (coalesce artifacts []))));
      created_at = now;
    } in
    if exists_row (has_task_id task_id) db.tasks
    then (ok comment, record db { comments = db.comments ++ comment ∷ [] })
    else raise foreign_key_violation db
