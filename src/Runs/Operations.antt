-- ===== src/Runs/Operations.antt =====
-- The whole operations as runs: the two requests with all that follows them, and the background
-- passes over deliveries and quiet threads.
use orchestra_threads.Prelude.{
  ℕ, ◌≡◌, refl, Bool, true, false, ◌||◌, Option, none, some, List, [], ◌∷◌, Result, ok, err, inl,
  inr, Bool-cases, lift, ◌>>=◌, coalesce, if◌then◌else◌,
}
use orchestra_threads.Text.{Text, strip, is_empty}
use orchestra_threads.Common.{Status, is_terminal}
use orchestra_threads.Rows.{Db, Thread, Response}
use orchestra_threads.Requests.{
  MessageRequestInput, MessageRequest, NotificationRequestInput, NotificationContext,
  build_message_request, build_notification_request, message_request_context,
  validate_notification_request, clean_notification_request, context_or,
}
use orchestra_threads.Store.Delivery.{DueEvent, mark_event_delivered, list_due_pending_events}
use orchestra_threads.Store.Notifications.{list_inactivity_candidates}
use orchestra_threads.Service.Config.{Config}
use orchestra_threads.Service.Message.{NewIds, send_message, send_message_with_lock_context}
use orchestra_threads.Service.Notification.{
  send_notification, send_notification_with_lock_context, after_notification,
  cascade_notification_close, finish, send_built,
}
use orchestra_threads.Service.Stop.{StopPost}
use orchestra_threads.Service.Cascade.{Outcome}
use orchestra_threads.Service.Delivery.{
  DeliveredItem, process_pending_event_item, process_items, process_pending_events,
  deliver_pending_event, mark_delivery_failed, item_of,
}
use orchestra_threads.Service.Inactivity.{
  build_inactivity_task, run_inactivity_tasks, append_inactivity_event, with_ids,
  process_inactivity_candidates,
}
use orchestra_threads.Runs.Cascades.{
  Run-trans, RunsTo, then_more-RunsTo, RunsTo-trans, cascade-RunsTo,
}
use orchestra_threads.Change.Notices.{IsContext, notification_context-IsContext}
use orchestra_threads.Change.Steps.{Step, Run, start, then_step}
use orchestra_threads.Change.Steps
use orchestra_threads.Descendants.{CleanIds}
use orchestra_threads.Descendants.Finishing.{Finishes, send_notification-Finishes}

module _ (config : Config) where
  pub send_message-Run :
      (ids : NewIds) (now : ℕ) (is_other : ℕ → Bool) (input : MessageRequestInput) (db : Db)
      → Run config db (send_message config ids now is_other input db).1
  unfolding send_message
  send_message-Run ids now is_other input db = by_request (build_message_request is_other input)
    where
      by_request :
          (r : Result MessageRequest)
          → Run config db
              ((lift r >>= λ q.
                  send_message_with_lock_context config ids now (message_request_context q))
                db).1
      by_request (ok q) =
          then_step start (Steps.Step.messages (message_request_context q) ids now refl)
      by_request (err e) = start

  if-Run :
      {db : Db} (b : Bool) (u v : Db)
      → Run config db u
      → Run config db v
      → Run config db (if b then u else v)
  if-Run true u v h k = h
  if-Run false u v h k = k

  process_item-Run :
      (now : ℕ) (post : Text → DeliveredItem → Option Text) (item : DueEvent) (db : Db)
      → Run config db (process_pending_event_item config now post item db)
  unfolding process_pending_event_item deliver_pending_event mark_delivery_failed
  process_item-Run now post item db =
      if-Run _ _ _ start
        (if-Run _ _ _ (failed _) (if-Run _ _ _ (posted (post _ (item_of item))) (failed _)))
    where
      failed :
          (text : Text)
          → Run config db (mark_delivery_failed config now post (strip item.event.event_id) text db)
      failed text = then_step start (Steps.Step.fails (strip item.event.event_id) text now refl)

      posted :
          (reply : Option Text)
          → Run config db (elim reply [
            | none ↦ (mark_event_delivered (strip item.event.event_id) now db).1
            | some text ↦ mark_delivery_failed config now post (strip item.event.event_id) text db
          ])
      posted none = then_step start (Steps.Step.delivers (strip item.event.event_id) now refl)
      posted (some text) = failed text

  process_items-Run :
      (now : ℕ) (post : Text → DeliveredItem → Option Text) (items : List DueEvent) (db : Db)
      → Run config db (process_items config now post items db)
  unfolding process_items
  process_items-Run now post [] db = start
  process_items-Run now post (item ∷ items) db =
      Run-trans (process_item-Run now post item db) (process_items-Run now post items _)

  inactivity_tasks-Run :
      (now : ℕ) (show : ℕ → Text) (tasks : List (Text × Thread)) (db : Db)
      → Run config db (run_inactivity_tasks config now show tasks db)
  unfolding run_inactivity_tasks build_inactivity_task append_inactivity_event
  inactivity_tasks-Run now show [] db = start
  inactivity_tasks-Run now show ((event_id, t) ∷ rest) db =
      Run-trans
        (elim (Bool-cases (
          is_empty (strip t.thread_id)
          || is_empty (strip (coalesce t.last_message_sender_agent_slug [])))) [
            | inl e ↦ rw e start
            | inr e ↦ rw e (then_step start (Steps.Step.reminds event_id _ _ _ now refl))
          ])
        (inactivity_tasks-Run now show rest _)

  after-RunsTo :
      (event_id : Text) (now : ℕ) (c : NotificationContext) (db : Db)
      → RunsTo config db (after_notification config event_id now c db)
  unfolding after_notification cascade_notification_close
  after-RunsTo event_id now c db = elim (Bool-cases (is_terminal c.status)) [
    | inl e ↦ rw e (then_more-RunsTo config db _ _ (cascade-RunsTo config now _ _ _ db))
    | inr e ↦ rw e start
  ]

  finish-RunsTo :
      (event_id : Text) (now : ℕ) (c : NotificationContext) (db : Db)
      → IsContext c
      → RunsTo config db
          (finish config event_id now c
            (send_notification_with_lock_context config event_id now c db)).outcome
  finish-RunsTo event_id now c db k =
      by_reply (send_notification_with_lock_context config event_id now c db)
        (then_step start (Steps.Step.notifies c event_id now k refl))
    where
      by_reply :
          (out : Result Response × Db)
          → Run config db out.1
          → RunsTo config db (finish config event_id now c out).outcome
      by_reply (ok r, u) run = RunsTo-trans config db u _ run (after-RunsTo event_id now c u)
      by_reply (err e, u) run = run

  send_notification-RunsTo :
      (event_id : Text) (now : ℕ) (is_other : ℕ → Bool) (input : NotificationRequestInput) (db : Db)
      → RunsTo config db (send_notification config event_id now is_other input db).outcome
  unfolding send_notification build_notification_request
  send_notification-RunsTo event_id now is_other input db =
      by_status (validate_notification_request (clean_notification_request is_other input))
    where
      by_status :
          (s : Result Status)
          → RunsTo config db
              (send_built config event_id now
                (context_or (clean_notification_request is_other input) s)
                db).outcome
      by_status (ok s) =
          finish-RunsTo event_id now _ db
            (notification_context-IsContext (clean_notification_request is_other input) s)
      by_status (err e) = start

-- The outcome of an operation that is not out of fuel: the stop requests and the store that a run
-- reaches.
abbrev pub Reaches : Config → Db → Outcome → Type 0
Reaches config db out =
    (posts : List StopPost) × (u : Db) × (out ≡ some (posts, u)) × Run config db u

finished-Reaches :
    (config : Config) (db : Db) (out : Outcome)
    → Finishes out
    → RunsTo config db out
    → Reaches config db out
finished-Reaches config db none (posts, u, e) h = absurd (cc e)
finished-Reaches config db (some (posts, u)) f h = (posts, u, refl, h)

-- Every operation ends and changes the store by a run of steps, whatever its arguments and the replies of
-- the callbacks: a message, a notification with the cascade after it, whose fuel is enough, a delivery
-- pass and an inactivity pass. The thread ids are not empty and have no white space around them.
pub operations_are_runs :
    (config : Config) (ids : NewIds) (now : ℕ) (is_other : ℕ → Bool) (db : Db)
    (m : MessageRequestInput) (n : NotificationRequestInput)
    (post : Text → DeliveredItem → Option Text) (show fresh : ℕ → Text)
    → CleanIds db.threads
    → Run config db (send_message config ids now is_other m db).1
      × (Reaches config db (send_notification config ids.event_id now is_other n db).outcome
          × (Run config db (process_pending_events config now post db)
              × Run config db (process_inactivity_candidates config now show fresh db)))
unfolding process_pending_events process_inactivity_candidates
operations_are_runs config ids now is_other db m n post show fresh clean = (
  send_message-Run config ids now is_other m db,
  (
    finished-Reaches config db _
        (send_notification-Finishes config ids.event_id now is_other n db clean)
        (send_notification-RunsTo config ids.event_id now is_other n db),
    (
      process_items-Run config now post (list_due_pending_events db now 16) db,
      inactivity_tasks-Run config now show
          (with_ids config now show fresh 0
            (list_inactivity_candidates db config.inactivity_timeout_seconds 32 now))
          db,
    ),
  ),
)
