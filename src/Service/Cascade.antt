-- ===== src/Service/Cascade.antt =====
-- service/flows/notification_flow.py, `_ChildCascadeFlow`: closing the descendants of a thread.
-- `asyncio.gather` runs the children one after the other, in the order of the list. The recursion
-- takes fuel and gives `none` when it runs out.
use orchestra_threads.Prelude.{
  ℕ, zero, suc, ◌||◌, Option, none, some, List, [], ◌∷◌, ◌++◌, if◌then◌else◌,
}
use orchestra_threads.Text.{Text, lit, ◌==◌, strip, is_empty}
use orchestra_threads.Common.{closed, is_terminal}
use orchestra_threads.Rows.{Db, Thread}
use orchestra_threads.Store.Query.{list_child_threads}
use orchestra_threads.Store.Notifications.{update_thread_terminal_status}
use orchestra_threads.Store.Delivery.{cancel_pending_events_for_thread}
use orchestra_threads.Service.Config.{Config}
use orchestra_threads.Service.Stop.{StopPost, StopPayload, notify_stop}

-- The stop requests of a run, and the store after it.
abbrev pub Outcome : Type 0
Outcome = Option (List StopPost × Db)

abbrev pub then_more : List StopPost → Outcome → Outcome
then_more posts none = none
then_more posts (some (more, db)) = some (posts ++ more, db)

abbrev pub and_then : Outcome → (Db → Outcome) → Outcome
and_then none f = none
and_then (some (posts, db)) f = then_more posts (f db)

-- The set of the two participants, empty slugs left out.
unfoldable pub child_participants : Thread → List Text
unfolding strip
child_participants child =
    let a = strip child.participant_a_agent_slug in
    let b = strip child.participant_b_agent_slug in
    let second = if is_empty b || b == a then [] else b ∷ [] in
    if is_empty a then second else a ∷ second

module _ (config : Config) (now : ℕ) where
  unfoldable pub stop_all : Db → List Text → StopPayload → List StopPost
  unfolding notify_stop
  stop_all db [] payload = []
  stop_all db (slug ∷ slugs) payload =
      notify_stop config now db slug payload ++ stop_all db slugs payload

  -- The block under the lock.
  unfoldable pub close_thread : Text → Db → Db
  close_thread child_id db =
      let db' = (update_thread_terminal_status child_id closed now db).1 in
      (cancel_pending_events_for_thread child_id
        (lit "thread " ++ (child_id ++ lit " closed because ancestor thread became terminal"))
        db').1

  -- `recurse` is `cascade_close_children` for the child.
  unfoldable pub close_child_thread :
      (Text → Text → Db → Outcome) → Text → Text → Thread → Db → Outcome
  unfolding strip child_participants stop_all close_thread
  close_child_thread recurse parent_thread_id reason child db =
      let child_id = strip child.thread_id in
      if is_empty child_id || is_terminal child.status
      then some ([], db)
      else then_more
          (stop_all db (child_participants child) (record {
            thread_id = child_id;
            parent_thread_id = some parent_thread_id;
            reason = reason;
          }))
          (recurse child_id
            (lit "ancestor thread "
              ++ (parent_thread_id ++ (lit " closed descendant " ++ child_id)))
            (close_thread child_id db))

  unfoldable pub close_child_threads :
      (Text → Text → Db → Outcome) → Text → Text → List Thread → Db → Outcome
  unfolding close_child_thread
  close_child_threads recurse parent_thread_id reason [] db = some ([], db)
  close_child_threads recurse parent_thread_id reason (child ∷ rest) db =
      and_then (close_child_thread recurse parent_thread_id reason child db)
        (close_child_threads recurse parent_thread_id reason rest)

  unfoldable pub cascade_close_children : ℕ → Text → Text → Db → Outcome
  unfolding close_child_threads
  cascade_close_children zero thread_id reason db = none
  cascade_close_children (suc fuel) thread_id reason db =
      close_child_threads (cascade_close_children fuel) thread_id reason
        (list_child_threads db thread_id) db
