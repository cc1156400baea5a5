-- ===== src/Service/Inactivity.antt =====
-- service/flows/inactivity_flow.py: one pass over the threads that have gone quiet. A task that
-- raises leaves the others running; `asyncio.gather` runs them in the order of the list.
use orchestra_threads.Prelude.{
  ℕ, suc, true, false, ◌||◌, none, List, [], ◌∷◌, ◌++◌, Exec, pure, ◌>>=◌, coalesce, if◌then◌else◌,
}
use orchestra_threads.Text.{Text, lit, strip, is_empty}
use orchestra_threads.Rows.{Db, Thread, inactive}
use orchestra_threads.Store.Events.{AppendEventRequest, append_thread_event}
use orchestra_threads.Store.Notifications.{list_inactivity_candidates, mark_inactivity_sent}
use orchestra_threads.Service.Config.{Config}

abbrev pub inactivity_event : Text → Text → Text → Text → AppendEventRequest
inactivity_event event_id thread_id recipient text = record {
  event_id = event_id;
  thread_id = thread_id;
  event_kind = inactive;
  notification_status = none;
  from_agent_slug = lit "orchestra_threads";
  to_agent_slug = recipient;
  message_text = text;
  interrupts_runtime = true;
  requires_response = false;
  touch_activity = false;
  update_last_message_sender = false;
  set_thread_status = none;
  set_terminal = false;
}

-- `show` prints the number of seconds and the time of the last activity, and `fresh n` is the id that
-- the n-th task draws.
module _ (config : Config) (now : ℕ) (show : ℕ → Text) where
  unfoldable pub append_inactivity_event : Text → Text → Text → Text → Exec Db (Unit {0})
  append_inactivity_event event_id thread_id recipient text = do
    appended ← append_thread_event (inactivity_event event_id thread_id recipient text) now
    mark_inactivity_sent thread_id now

  unfoldable pub inactivity_message : Thread → Text
  inactivity_message t =
      lit "Thread "
      ++ (strip t.thread_id
          ++ (lit " has no new activity for at least "
              ++ (show config.inactivity_timeout_seconds
                  ++ (lit " seconds since "
                      ++ (show (coalesce t.last_activity_at 0)
                          ++ lit ". You may resume it with a new message or close it.")))))

  unfoldable pub build_inactivity_task : Text → Thread → Exec Db (Unit {0})
  unfolding append_inactivity_event inactivity_message strip
  build_inactivity_task event_id t =
      let thread_id = strip t.thread_id in
      let recipient = strip (coalesce t.last_message_sender_agent_slug []) in
      if is_empty thread_id || is_empty recipient
      then pure tt
      else append_inactivity_event event_id thread_id recipient (inactivity_message t)

  -- A task that raises is left at what it has written.
  unfoldable pub run_inactivity_tasks : List (Text × Thread) → Db → Db
  unfolding build_inactivity_task
  run_inactivity_tasks [] db = db
  run_inactivity_tasks ((event_id, t) ∷ rest) db =
      run_inactivity_tasks rest (build_inactivity_task event_id t db).1

  -- Each candidate with the id that its task will draw.
  abbrev pub with_ids : (ℕ → Text) → ℕ → List Thread → List (Text × Thread)
  with_ids fresh n [] = []
  with_ids fresh n (t ∷ ts) = (fresh n, t) ∷ with_ids fresh (suc n) ts

  unfoldable pub process_inactivity_candidates : (ℕ → Text) → Db → Db
  unfolding run_inactivity_tasks
  process_inactivity_candidates fresh db =
      run_inactivity_tasks
        (with_ids fresh 0 (list_inactivity_candidates db config.inactivity_timeout_seconds 32 now))
        db
