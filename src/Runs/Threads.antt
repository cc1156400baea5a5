-- ===== src/Runs/Threads.antt =====
-- The threads and events of a reachable store.
use orchestra_threads.Prelude.{
  ◌≡◌, ap, sym, ◌∙◌, true, ◌&&◌, not, some, [], arith, All-map, is_some,
}
use orchestra_threads.Text.{Text, eq→path}
use orchestra_threads.Common.{is_terminal}
use orchestra_threads.Sql.{select}
use orchestra_threads.Sql.Laws.{select-eq-nil, All-fetchrow, fetchrow-true}
use orchestra_threads.Rows.{Db, Thread, empty_db}
use orchestra_threads.Store.Query.{has_id, get_thread}
use orchestra_threads.Service.Config.{Config}
use orchestra_threads.Change.{live_in}
use orchestra_threads.Change.Steps.{Run, Run-Changes}
use orchestra_threads.Invariant.Numbering.{count_to, numbers_of, Numbered}
use orchestra_threads.Invariant.Final.{EndsAs, Timed}
use orchestra_threads.Runs.Sound.{Run-IsSound, Changes-EndsAs}

-- In every store that the service reaches from the empty one, the events of a thread, in the order in
-- which they were written, are numbered 1, 2, 3 and so on up to the thread's `last_sequence_no`.
pub numbered_without_gaps :
    (config : Config) {db : Db} (thread_id : Text) (t : Thread)
    → Run config empty_db db
    → get_thread db thread_id ≡ some t
    → numbers_of db.thread_events thread_id ≡ count_to t.last_sequence_no
unfolding get_thread
numbered_without_gaps config {db} thread_id t run found =
    ap (numbers_of db.thread_events)
      (sym (eq→path t.thread_id thread_id (fetchrow-true (has_id thread_id) db.threads found)))
    ∙ All-fetchrow (Numbered db.thread_events) (has_id thread_id) db.threads
        (Run-IsSound config run).numbered.numbers found

-- A thread that is terminal in some store keeps its status, its `terminal_at` and its last sequence
-- number in every store that the service reaches from there, and is never deleted.
pub terminal_is_final :
    (config : Config) {db u : Db} (thread_id : Text) (t : Thread)
    → Run config db u
    → get_thread db thread_id ≡ some t
    → is_terminal t.status ≡ true
    → EndsAs t (get_thread u thread_id)
terminal_is_final config thread_id t run found k =
    Changes-EndsAs thread_id t (Run-Changes config run) found k

-- In every store that the service reaches from the empty one, `terminal_at` of a thread is set
-- exactly if its status is terminal.
pub terminal_at_iff_terminal :
    (config : Config) {db : Db} (thread_id : Text) (t : Thread)
    → Run config empty_db db
    → get_thread db thread_id ≡ some t
    → is_some t.terminal_at ≡ is_terminal t.status
unfolding get_thread
terminal_at_iff_terminal config {db} thread_id t run found =
    All-fetchrow Timed (has_id thread_id) db.threads (Run-IsSound config run).timed found

-- In every store that the service reaches from the empty one, no event waits for delivery on a thread
-- that is terminal or missing.
pub pending_only_on_live :
    (config : Config) {db : Db}
    → Run config empty_db db
    → select (λ e. e.pending_delivery && not (live_in db e.thread_id)) db.thread_events ≡ []
pending_only_on_live config {db} run =
    select-eq-nil _ db.thread_events (
      All-map _ _ db.thread_events (λ e quiet. ground (arith, quiet))
        (Run-IsSound config run).quiet)
