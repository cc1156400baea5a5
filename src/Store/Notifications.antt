-- ===== src/Store/Notifications.antt =====
-- store_notifications.py
use orchestra_threads.Prelude.{
  ℕ, ◌+◌, Bool, true, false, ◌&&◌, Option, none, some, List, Exec, gets, modify, ◌>>◌, max, leb,
  take, coalesce, is_some, if◌then◌else◌,
}
use orchestra_threads.Text.{Text}
use orchestra_threads.Common.{Status}
use orchestra_threads.Sql.{select, update, order_by}
use orchestra_threads.Rows.{Db, Thread, seconds}
use orchestra_threads.Store.Query.{has_id, is_live, get_thread}

unfoldable pub terminated : Status → ℕ → Thread → Thread
terminated status now t = record t {
  status = status;
  updated_at = now;
  terminal_at = some (coalesce t.terminal_at now);
}

-- The row that UPDATE … RETURNING gives and the row that `get_thread` reads if none was updated are
-- both the row of that id afterwards.
unfoldable pub update_thread_terminal_status : Text → Status → ℕ → Exec Db (Option Thread)
unfolding terminated get_thread
update_thread_terminal_status thread_id status now = do
  modify (λ db. record db {
    threads = update (λ t. has_id thread_id t && is_live t) (terminated status now) db.threads;
  })
  gets (λ db. get_thread db thread_id)

-- `t <= cutoff`, with `cutoff` the time `timeout_seconds` ago.
abbrev pub passed : ℕ → ℕ → Option ℕ → Bool
passed timeout_seconds now none = false
passed timeout_seconds now (some t) = leb (t + seconds timeout_seconds) now

abbrev pub is_inactive : ℕ → ℕ → Thread → Bool
is_inactive timeout_seconds now t =
    is_live t
    && (is_some t.last_message_sender_agent_slug
        && (passed timeout_seconds now t.last_activity_at
            && (if is_some t.last_inactivity_event_at
                then passed timeout_seconds now t.last_inactivity_event_at
                else true)))

unfoldable pub list_inactivity_candidates : Db → ℕ → ℕ → ℕ → List Thread
list_inactivity_candidates db timeout_seconds limit now = take (max 1 limit) (
    order_by (λ x y. leb (coalesce x.last_activity_at 0) (coalesce y.last_activity_at 0))
      (select (is_inactive timeout_seconds now) db.threads))

unfoldable pub mark_inactivity_sent : Text → ℕ → Exec Db (Unit {0})
mark_inactivity_sent thread_id now = modify λ db. record db {
  threads =
      update (has_id thread_id)
        (λ t. record t { last_inactivity_event_at = some now; updated_at = now }) db.threads;
}
