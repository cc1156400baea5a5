-- ===== src/Tasks/Laws.antt =====
-- task_registry: what the operations on tasks do, and what the queries give.
use orchestra_threads.Prelude.{
  ℕ, suc, ◌≤◌, none, not, map, ◌≡◌, refl, ap, sym, ◌∙◌, Bool, true, false, Option, List, [], ◌∷◌,
  ◌++◌, ok, Exec, inl, inr, Bool-cases, arith, All, All-map, is_some,
}
use mathlib.Core.Option
use mathlib.Core.List.{append-nil}
use orchestra_threads.Text.{Text, ◌==◌, eq_refl, eq→path, is_empty}
use orchestra_threads.Sql.{select, fetchrow, exists_row, update, order_by}
use orchestra_threads.Sql.Laws.{select-append, exists_row-append, exists_row-eq-is_some}
use orchestra_threads.Sql.Ordering.{insert-first}
use orchestra_threads.Json.{Json}
use orchestra_threads.Tasks.Rows.{Task, ChecklistItem, Registry}
use orchestra_threads.Tasks.Board.{
  TaskCreateRequest, create_task, has_task_id, get_task, set_task, update_task_status, assign_task,
  link_thread, add_artifact,
}
use orchestra_threads.Tasks.Checklists.{
  ChecklistEntry, of_task, sorted_before, get_checklist, checklist_rows, insert_rows,
  insert_checklist_items, task_create,
}

-- `m` tells whether the task is there, changes it by `f`, and leaves the other tasks alone.
abbrev pub Sets : Registry → Text → (Task → Task) → Exec Registry Bool → Type 0
Sets db task_id f m =
    ((m db).0 ≡ ok (is_some (get_task task_id db)))
    × (get_task task_id (m db).1 ≡ Option.map f (get_task task_id db))
    × ((other : Text) → (task_id == other) ≡ false → get_task other (m db).1 ≡ get_task other db)

module _ (task_id : Text) (f : Task → Task) (ids : (t : Task) → (f t).task_id ≡ t.task_id) where
  fetch_set :
      (ts : List Task)
      → fetchrow (has_task_id task_id) (update (has_task_id task_id) f ts)
        ≡ Option.map f (fetchrow (has_task_id task_id) ts)
  unfolding fetchrow update has_task_id
  fetch_set [] = refl
  fetch_set (t ∷ ts) = ground (arith, fetch_set ts, ap (λ (i : Text). i == task_id) (ids t))

  fetch_other :
      (other : Text) (ts : List Task)
      → (task_id == other) ≡ false
      → fetchrow (has_task_id other) (update (has_task_id task_id) f ts)
        ≡ fetchrow (has_task_id other) ts
  unfolding fetchrow update has_task_id
  fetch_other other [] h = refl
  fetch_other other (t ∷ ts) h = elim (Bool-cases (t.task_id == task_id)) [
    | inl e ↦
        let apart : (t.task_id == other) ≡ false =
          ap (λ (i : Text). i == other) (eq→path t.task_id task_id e) ∙ h in
        ground (arith, fetch_other other ts h, ap (λ (i : Text). i == other) (ids t), apart, e)
    | inr e ↦ ground (arith, fetch_other other ts h, e)
  ]

  set_task-Sets : (db : Registry) → Sets db task_id f (set_task task_id f)
  unfolding set_task get_task
  set_task-Sets db = (
    ap ok (exists_row-eq-is_some (has_task_id task_id) db.tasks),
    fetch_set db.tasks,
    λ other h. fetch_other other db.tasks h,
  )

-- Each update of a task tells whether the task is there, changes one field of it and `updated_at`
-- (an artifact is added after the others), and leaves all other tasks alone.
pub task_updates_lem :
    (now : ℕ) (task_id status : Text) (assignee thread_id : Option Text) (artifact : Json)
    (db : Registry)
    → Sets db task_id
        (λ t. record t { status = status; updated_at = now })
        (update_task_status now task_id status)
      × Sets db task_id
          (λ t. record t { assignee = assignee; updated_at = now })
          (assign_task now task_id assignee)
      × Sets db task_id
          (λ t. record t { linked_thread_id = thread_id; updated_at = now })
          (link_thread now task_id thread_id)
      × Sets db task_id
          (λ t. record t { artifacts = t.artifacts ++ artifact ∷ []; updated_at = now })
          (add_artifact now task_id artifact)
unfolding update_task_status assign_task link_thread add_artifact
task_updates_lem now task_id status assignee thread_id artifact db = (
  set_task-Sets task_id _ (λ t. refl) db,
  set_task-Sets task_id _ (λ t. refl) db,
  set_task-Sets task_id _ (λ t. refl) db,
  set_task-Sets task_id _ (λ t. refl) db,
)

module _ (task_id : Text) where
  rows-from :
      (n : ℕ) (entries : List ChecklistEntry)
      → All (λ i. n ≤ i.sort_order) (checklist_rows task_id n entries)
  unfolding checklist_rows
  rows-from n [] = tt
  rows-from n (e ∷ entries) =
      let rest =
        All-map (λ (i : ChecklistItem). suc n ≤ i.sort_order)
          (λ (i : ChecklistItem). n ≤ i.sort_order) _ (λ i h. omega (arith, h))
          (rows-from (suc n) entries) in
      elim (Bool-cases (is_empty e.label)) [ inl k ↦ rw k rest | inr k ↦ rw k (omega arith, rest) ]

  -- The rows stand in the order of the checklist already.
  rows-sorted :
      (n : ℕ) (entries : List ChecklistEntry)
      → order_by sorted_before (checklist_rows task_id n entries) ≡ checklist_rows task_id n entries
  unfolding order_by checklist_rows sorted_before
  rows-sorted n [] = refl
  rows-sorted n (e ∷ entries) = elim (Bool-cases (is_empty e.label)) [
    | inl k ↦ rw k (rows-sorted (suc n) entries)
    | inr k ↦
        rw (k, rows-sorted (suc n) entries)
          (insert-first sorted_before _ (checklist_rows task_id (suc n) entries) (
            All-map (λ (i : ChecklistItem). suc n ≤ i.sort_order) _ _ (λ i h. ground (arith, h))
              (rows-from (suc n) entries)))
  ]

  rows-select :
      (n : ℕ) (entries : List ChecklistEntry)
      → select (of_task task_id) (checklist_rows task_id n entries)
        ≡ checklist_rows task_id n entries
  unfolding select checklist_rows of_task
  rows-select n [] = refl
  rows-select n (e ∷ entries) = ground (arith, rows-select (suc n) entries, eq_refl task_id)

last_is_there :
    (p : Task → Bool) (ts : List Task) (t : Task) → p t ≡ true → exists_row p (ts ++ t ∷ []) ≡ true
last_is_there p ts t h = ground (arith, exists_row-append p ts t, h)

inserted :
    (task_id : Text) (rows : List ChecklistItem) (db : Registry)
    → exists_row (has_task_id task_id) db.tasks ≡ true
    → (insert_rows task_id rows db ≡ (ok tt, record db { items = db.items ++ rows }))
unfolding insert_rows
inserted task_id [] db h = λ i. (ok tt, record db { items = sym (append-nil db.items) i })
inserted task_id (row ∷ rows) db h = rw (h, insert_rows) refl

-- An item as the tool was given it.
abbrev pub entry_of : ChecklistItem → ChecklistEntry
entry_of i = record { item_id = i.item_id; label = i.label; checked = i.checked }

rows-entries :
    (task_id : Text) (n : ℕ) (entries : List ChecklistEntry)
    → map entry_of (checklist_rows task_id n entries) ≡ select (λ e. not (is_empty e.label)) entries
unfolding checklist_rows select
rows-entries task_id n [] = refl
rows-entries task_id n (e ∷ entries) = elim (Bool-cases (is_empty e.label)) [
  | inl k ↦ rw k (rows-entries task_id (suc n) entries)
  | inr k ↦ rw k (ap (λ es. e ∷ es) (rows-entries task_id (suc n) entries))
]

rows-of_task :
    (task_id : Text) (n : ℕ) (entries : List ChecklistEntry)
    → All (λ i. (i.task_id ≡ task_id) × (i.checked_at ≡ none)) (checklist_rows task_id n entries)
unfolding checklist_rows
rows-of_task task_id n [] = tt
rows-of_task task_id n (e ∷ entries) = elim (Bool-cases (is_empty e.label)) [
  | inl k ↦ rw k (rows-of_task task_id (suc n) entries)
  | inr k ↦ rw k ((refl, refl), rows-of_task task_id (suc n) entries)
]

-- The checklist of a task that the tool creates, with an id that no checklist item refers to, is read back
-- as the entries that have a label, in their order, with their labels and marks; each belongs to the
-- task and was not checked at any time, and the call succeeds.
pub checklist_reads_back :
    (task_id : Text) (now : ℕ) (r : TaskCreateRequest) (entries : List ChecklistEntry)
    (db : Registry)
    → select (of_task task_id) db.items ≡ []
    → let after = task_create task_id now r entries db in
      (map entry_of (get_checklist task_id after.1) ≡ select (λ e. not (is_empty e.label)) entries)
      × All (λ i. (i.task_id ≡ task_id) × (i.checked_at ≡ none)) (get_checklist task_id after.1)
      × ((task : Task) × (after.0 ≡ ok task))
unfolding get_checklist task_create create_task insert_checklist_items has_task_id
checklist_reads_back task_id now r entries db fresh =
    rw
      (inserted task_id (checklist_rows task_id 0 entries) (create_task task_id now r db).1
        (last_is_there (has_task_id task_id) db.tasks _ (eq_refl task_id)))
      (rw (select-append, fresh, rows-select task_id 0 entries, rows-sorted task_id 0 entries)
        (rows-entries task_id 0 entries, rows-of_task task_id 0 entries, (_, refl)))
