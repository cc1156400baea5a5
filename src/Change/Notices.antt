-- ===== src/Change/Notices.antt =====
-- The blocks of the notification, delivery, inactivity and cascade flows make nothing but primitive
-- changes.
use orchestra_threads.Prelude.{
  ℕ, ◌≡◌, refl, ◌∙◌, sym, Bool, true, false, Option, none, some, Result, ◌++◌, inl, inr, Bool-cases,
  ◌>>=◌, lift, pure,
}
use orchestra_threads.Text.{Text, lit}
use orchestra_threads.Common
use orchestra_threads.Common.{
  is_terminal, is_delivered_notification, Status, done, closed, status_text,
}
use orchestra_threads.Rows.{Db, Thread, ThreadEvent, Response}
use orchestra_threads.Requests.{NotificationContext, NotificationRequestInput, notification_context}
use orchestra_threads.Store.Events.{event_insert_request, inserted_event, updated_thread}
use orchestra_threads.Store.Delivery.{cancel_pending_events_for_thread}
use orchestra_threads.Store.Notifications.{update_thread_terminal_status}
use orchestra_threads.Service.Config.{Config}
use orchestra_threads.Service.Notification.{
  notification_thread, validate_notification_actor, notification_event, cancel_if,
  build_notification_response, answer, send_notification_with_lock_context,
}
use orchestra_threads.Service.Cascade.{close_thread}
use orchestra_threads.Service.Inactivity.{append_inactivity_event}
use orchestra_threads.Change
use orchestra_threads.Change.{Change, Changes, here, next}
use orchestra_threads.Change.Actions.{Makes, makes_rules, Makes->>=, Makes-pure}
use orchestra_threads.Change.Operations.{
  append_thread_event-Makes, append_thread_event-Appending, save_idempotent_result-Makes, Appending,
  refused, mark_inactivity_sent-Makes,
}
use orchestra_threads.Change.Operations

-- What `notification_context` makes of a request with a valid status.
pub record IsContext (c : NotificationContext) : Type 0 where
  pub terminal : c.is_terminal ≡ is_terminal c.status
  pub delivery : c.requires_delivery ≡ is_delivered_notification c.status

pub notification_context-IsContext :
    (r : NotificationRequestInput) (s : Status) → IsContext (notification_context r s)
unfolding notification_context
notification_context-IsContext r s = record { terminal = refl; delivery = refl }

-- A terminal status is not delivered.
undelivered : (s : Status) → is_terminal s ≡ true → is_delivered_notification s ≡ false
undelivered done h = refl
undelivered closed h = refl
undelivered Common.Status.opened h = cc
undelivered Common.Status.in_progress h = cc
undelivered Common.Status.review h = cc

module _ (config : Config) (event_id : Text) (now : ℕ) where
  module _ (c : NotificationContext) (k : IsContext c) where
    reason : Text
    reason =
        lit "thread " ++ (c.thread_id ++ (lit " reached terminal state " ++ status_text c.status))

    tail :
        (b : Bool) (response : Response) (db u : Db)
        → b ≡ true
        → Changes db (Change.canceled c.thread_id reason u)
        → Changes db ((cancel_if b c >>= λ _. pure response) u).1
    unfolding cancel_pending_events_for_thread reason
    tail true response db u t h = h
    tail false response db u t h = absurd (cc)

    ending :
        (respond : ThreadEvent × Thread → Response) (db : Db)
        (out : Result (ThreadEvent × Thread) × Db)
        → c.is_terminal ≡ true
        → Appending (notification_event c event_id) now db out
        → Changes db
            ((lift out.0 >>= λ x. cancel_if c.is_terminal c >>= λ _. pure (respond x)) out.1).1
    unfolding event_insert_request
    ending respond db out t (refused e q) = rw q here
    ending respond db out t (Operations.done x n q) =
        let r = event_insert_request x (notification_event c event_id) now in
        rw q (
          tail c.is_terminal (respond (inserted_event r, updated_thread r x)) db
            (Change.with_event r db) t
            (next here (
              Change.finished r x reason n k.terminal (sym k.terminal ∙ t)
                (k.delivery ∙ undelivered c.status (sym k.terminal ∙ t)) refl)))

    quiet : (b : Bool) → b ≡ false → Makes (cancel_if b c)
    quiet true t = absurd (cc)
    quiet false t = Makes-pure tt

    build_notification_response-Makes : Makes (build_notification_response config event_id now c)
    unfolding build_notification_response
    build_notification_response-Makes = elim (Bool-cases c.is_terminal) [
      | inl t ↦ record {
        at = λ db.
            ending _ db _ t (append_thread_event-Appending (notification_event c event_id) now db);
      }
      | inr t ↦
          Makes->>= _ _
            (append_thread_event-Makes (notification_event c event_id) now k.terminal
              (sym k.terminal ∙ t))
            λ (event, payload). Makes->>= _ _ (quiet c.is_terminal t) λ _. Makes-pure _
    ]

    notification_thread-Makes : Makes (notification_thread c)
    unfolding notification_thread
    notification_thread-Makes = search makes_rules

    validate_notification_actor-Makes : (t : Thread) → Makes (validate_notification_actor t c)
    unfolding validate_notification_actor
    validate_notification_actor-Makes t = search makes_rules

    answer-Makes : (cached : Option Response) → Makes (answer config event_id now c cached)
    answer-Makes none =
        search
          (
            makes_rules, notification_thread-Makes, validate_notification_actor-Makes,
            build_notification_response-Makes, save_idempotent_result-Makes,
          )
          depth 9
    answer-Makes (some cached) = Makes-pure cached

    pub send_notification-Makes : Makes (send_notification_with_lock_context config event_id now c)
    unfolding send_notification_with_lock_context
    send_notification-Makes = search (makes_rules, answer-Makes)

pub close_thread-Changes :
    (config : Config) (now : ℕ) (thread_id : Text) (db : Db)
    → Changes db (close_thread config now thread_id db)
unfolding close_thread update_thread_terminal_status cancel_pending_events_for_thread
close_thread-Changes config now thread_id db =
    next here (Change.closed thread_id closed now _ refl refl)

pub append_inactivity_event-Makes :
    (config : Config) (now : ℕ) (show : ℕ → Text) (event_id thread_id recipient text : Text)
    → Makes (append_inactivity_event config now show event_id thread_id recipient text)
unfolding append_inactivity_event
append_inactivity_event-Makes config now show event_id thread_id recipient text =
    Makes->>= _ _ (append_thread_event-Makes _ now refl refl)
      λ _. mark_inactivity_sent-Makes thread_id now
