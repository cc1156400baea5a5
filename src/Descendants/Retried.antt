-- ===== src/Descendants/Retried.antt =====
-- A terminal notification that is made again: service/flows/notification_flow.py runs the cascade again.
use orchestra_threads.Prelude.{ℕ, ◌≡◌, refl, Bool, true, false, ◌&&◌, not, some, ok}
use orchestra_threads.Common.{is_terminal}
use orchestra_threads.Text.{Text}
use orchestra_threads.Sql.{exists_row}
use orchestra_threads.Rows.{Db, Response}
use orchestra_threads.Requests.{
  NotificationContext, NotificationRequestInput, build_notification_request,
}
use orchestra_threads.Store.Idempotency.{get_idempotent_result}
use orchestra_threads.Service.Config.{Config}
use orchestra_threads.Service.Notification.{send_notification, send_notification_with_lock_context}
use orchestra_threads.Descendants.{is_orphan, CleanIds}
use orchestra_threads.Descendants.Cascade.{under}
use orchestra_threads.Descendants.Notified.{SettlesTo, cascade_settles}

-- A terminal notification whose sender and `client_request_id` have a stored response is answered with it,
-- and the cascade is run on the thread that it names: in a store whose only live threads under a
-- terminal parent are children of that thread, as a cascade that was cut off leaves them, and whose
-- thread ids are not empty and have no white space around them, the cascade ends within its fuel, no
-- live thread stands under a terminal parent afterwards, and every thread is still there, with its id
-- and parent, none of them back to life.
pub retry_resumes_cascade :
    (config : Config) (event_id : Text) (now : ℕ) (is_other : ℕ → Bool)
    (input : NotificationRequestInput) (c : NotificationContext) (cached : Response) (db : Db)
    → build_notification_request is_other input ≡ ok c
    → get_idempotent_result db c.from_agent_slug c.client_request_id ≡ some cached
    → is_terminal c.status ≡ true
    → CleanIds db.threads
    → exists_row
        (λ t. is_orphan db t && not (under c.thread_id t.thread_id t.parent_thread_id))
        db.threads
      ≡ false
    → let sent = send_notification config event_id now is_other input db in
      (sent.reply ≡ ok cached) × SettlesTo db sent.outcome
unfolding send_notification send_notification_with_lock_context
retry_resumes_cascade config event_id now is_other input c cached db built known terminal clean
      only =
    rw (built, known) (refl, cascade_settles config event_id now c db terminal clean only)
