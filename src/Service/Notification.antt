-- ===== src/Service/Notification.antt =====
-- service/flows/notification_flow.py
use orchestra_threads.Prelude.{
  ℕ, suc, Bool, true, false, Option, none, some, List, [], ◌++◌, Exec, pure, lift, or_raise, gets,
  check, Result, ok, err, service_error, ◌>>=◌, ◌>>◌, length, if◌then◌else◌,
}
use orchestra_threads.Text.{Text, lit, ◌==◌, strip}
use orchestra_threads.Common.{
  Status, closed, is_terminal, is_owner_notification, is_callee_notification, status_text,
}
use orchestra_threads.Rows.{Db, Thread, notification, Response}
use orchestra_threads.Store.Agents.{get_agent}
use orchestra_threads.Store.Query.{get_thread}
use orchestra_threads.Store.Events.{AppendEventRequest, append_thread_event}
use orchestra_threads.Store.Delivery.{cancel_pending_events_for_thread}
use orchestra_threads.Store.Idempotency.{get_idempotent_result, save_idempotent_result}
use orchestra_threads.Requests.{
  NotificationRequestInput, NotificationContext, build_notification_request,
}
use orchestra_threads.Service.Config.{Config}
use orchestra_threads.Service.Summary.{thread_summary, plain_payload}
use orchestra_threads.Service.Routing.{validate_routing, ensure_peer_allowed}
use orchestra_threads.Service.Stop.{StopPost, notify_stop}
use orchestra_threads.Service.Cascade.{Outcome, cascade_close_children, then_more}

unfoldable pub allowed_notification_statuses : Text → Text → Status → Bool
allowed_notification_statuses from_agent_slug owner_agent_slug status =
    if from_agent_slug == owner_agent_slug
    then is_owner_notification status
    else is_callee_notification status

unfoldable pub notification_thread : NotificationContext → Exec Db Thread
notification_thread c = do
  found ← gets (λ db. get_thread db c.thread_id)
  thread ← or_raise (service_error 404 (lit "Unknown thread_id: " ++ c.thread_id)) found
  lift (validate_routing thread c.from_agent_slug c.to_agent_slug)
  pure thread

unfoldable pub validate_notification_actor : Thread → NotificationContext → Exec Db (Unit {0})
unfolding allowed_notification_statuses strip
validate_notification_actor thread c =
    check (allowed_notification_statuses c.from_agent_slug (strip thread.owner_agent_slug) c.status)
      (service_error 409 (
        c.from_agent_slug
        ++ (lit " cannot publish "
            ++ (status_text c.status ++ (lit " on thread " ++ c.thread_id)))))

abbrev pub notification_event : NotificationContext → Text → AppendEventRequest
notification_event c event_id = record {
  event_id = event_id;
  thread_id = c.thread_id;
  event_kind = notification;
  notification_status = some c.status;
  from_agent_slug = c.from_agent_slug;
  to_agent_slug = c.to_agent_slug;
  message_text = c.message_text;
  interrupts_runtime = c.requires_delivery;
  requires_response = false;
  touch_activity = true;
  update_last_message_sender = false;
  set_thread_status = some c.status;
  set_terminal = c.is_terminal;
}

-- `if is_terminal:` the pending events of the thread are canceled.
abbrev pub cancel_if : Bool → NotificationContext → Exec Db (Unit {0})
cancel_if false c = pure tt
cancel_if true c = do
  n ←
      cancel_pending_events_for_thread c.thread_id
        (lit "thread " ++ (c.thread_id ++ (lit " reached terminal state " ++ status_text c.status)))
  pure tt

module _ (config : Config) (event_id : Text) (now : ℕ) where
  unfoldable pub build_notification_response : NotificationContext → Exec Db Response
  build_notification_response c = do
    (event, thread_payload) ← append_thread_event (notification_event c event_id) now
    cancel_if c.is_terminal c
    pure (record {
      operation = notification;
      created_thread = none;
      thread = thread_summary config now (plain_payload thread_payload);
      event = event;
    })

  abbrev pub answer : NotificationContext → Option Response → Exec Db Response
  answer c (some cached) = pure cached
  answer c none = do
    from_agent ← gets (λ db. get_agent db c.from_agent_slug)
    lift (ensure_peer_allowed from_agent c.from_agent_slug c.to_agent_slug)
    thread ← notification_thread c
    validate_notification_actor thread c
    response ← build_notification_response c
    save_idempotent_result c.from_agent_slug c.client_request_id notification response now
    pure response

  unfoldable pub send_notification_with_lock_context : NotificationContext → Exec Db Response
  unfolding notification_thread validate_notification_actor build_notification_response
  send_notification_with_lock_context c = do
    cached ← gets (λ db. get_idempotent_result db c.from_agent_slug c.client_request_id)
    answer c cached

  unfoldable pub notify_closed_thread : NotificationContext → Db → List StopPost
  unfolding notify_stop
  notify_closed_thread c db = notify_stop config now db c.to_agent_slug (record {
    thread_id = c.thread_id;
    parent_thread_id = none;
    reason = lit "Thread " ++ (c.thread_id ++ (lit " closed by " ++ c.from_agent_slug));
  })

  abbrev pub is_closed : Status → Bool
  is_closed closed = true
  is_closed _ = false

  -- The fuel is one more than the number of threads.
  abbrev pub cascade_fuel : Db → ℕ
  cascade_fuel db = suc (length db.threads)

  unfoldable pub cascade_notification_close : NotificationContext → Db → Outcome
  cascade_notification_close c db =
      cascade_close_children config now (cascade_fuel db) c.thread_id
        (lit "parent thread "
          ++ (c.thread_id ++ (lit " reached terminal state " ++ status_text c.status)))
        db

  -- What follows the response: the stop callback, then the cascade.
  unfoldable pub after_notification : NotificationContext → Db → Outcome
  unfolding notify_closed_thread cascade_notification_close
  after_notification c db =
      let posts = if is_closed c.status then notify_closed_thread c db else [] in
      if is_terminal c.status
      then then_more posts (cascade_notification_close c db)
      else some (posts, db)

  -- The response (or the error), the stop requests and the store; `none` would be out of fuel.
  pub record Sent : Type 0 where
    pub reply : Result Response
    pub outcome : Outcome

  abbrev pub finish : NotificationContext → Result Response × Db → Sent
  finish c (ok response, db) = record { reply = ok response; outcome = after_notification c db }
  finish c (err e, db) = record { reply = err e; outcome = some ([], db) }

  abbrev pub send_built : Result NotificationContext → Db → Sent
  send_built (ok c) db = finish c (send_notification_with_lock_context c db)
  send_built (err e) db = record { reply = err e; outcome = some ([], db) }

  unfoldable pub send_notification : (ℕ → Bool) → NotificationRequestInput → Db → Sent
  unfolding send_notification_with_lock_context after_notification
  send_notification is_other input db = send_built (build_notification_request is_other input) db
