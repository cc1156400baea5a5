-- ===== src/Change/Steps.antt =====
-- Runs of the service: any sequence of the blocks that run under its lock, with any arguments, from
-- whichever request, delivery pass, inactivity pass or cascade they come.
use orchestra_threads.Prelude.{ℕ, ◌≡◌, refl, inl, inr, none, [], Option-cases}
use orchestra_threads.Text.{Text}
use orchestra_threads.Sql.{fetchrow}
use orchestra_threads.Rows.{Db, Metadata}
use orchestra_threads.Store.Agents.{upsert_agent, touch_agent, has_slug}
use orchestra_threads.Store.Delivery.{mark_event_delivered}
use orchestra_threads.Requests.{MessageRequest, NotificationContext}
use orchestra_threads.Service.Config.{Config}
use orchestra_threads.Service.Message.{NewIds, send_message_with_lock_context}
use orchestra_threads.Service.Notification.{send_notification_with_lock_context}
use orchestra_threads.Service.Cascade.{close_thread}
use orchestra_threads.Service.Delivery.{mark_delivery_failed}
use orchestra_threads.Service.Inactivity.{append_inactivity_event}
use orchestra_threads.Change.{Change, Changes, here, next, Changes-trans}
use orchestra_threads.Change.Operations.{mark_event_delivered-Makes, mark_event_failed-Makes}
use orchestra_threads.Change.Flows.{send_message-Makes}
use orchestra_threads.Change.Notices.{
  IsContext, send_notification-Makes, close_thread-Changes, append_inactivity_event-Makes,
}

pub data Step (config : Config) (db u : Db) : Type 0 where
  registers :
      (agent_slug display_name event_url stop_url : Text) (metadata : Metadata) (now : ℕ)
      → u ≡ (upsert_agent agent_slug display_name event_url stop_url metadata now db).1
      → Step config db u
  beats : (agent_slug : Text) (now : ℕ) → u ≡ (touch_agent agent_slug now db).1 → Step config db u
  messages :
      (r : MessageRequest) (ids : NewIds) (now : ℕ)
      → u ≡ (send_message_with_lock_context config ids now r db).1
      → Step config db u
  notifies :
      (c : NotificationContext) (event_id : Text) (now : ℕ)
      → IsContext c
      → u ≡ (send_notification_with_lock_context config event_id now c db).1
      → Step config db u
  closes_child :
      (thread_id : Text) (now : ℕ) → u ≡ close_thread config now thread_id db → Step config db u
  delivers :
      (event_id : Text) (now : ℕ) → u ≡ (mark_event_delivered event_id now db).1 → Step config db u
  fails :
      (event_id error_text : Text) (now : ℕ)
      → u ≡ mark_delivery_failed config now (λ url item. none) event_id error_text db
      → Step config db u
  reminds :
      (event_id thread_id recipient text : Text) (now : ℕ)
      → u ≡ (append_inactivity_event config now (λ n. []) event_id thread_id recipient text db).1
      → Step config db u

-- Everything that the service can reach from `db`.
pub data Run (config : Config) (db : Db) : Db → Type 0 where
  start : Run config db db
  then_step : {u v : Db} → Run config db u → Step config u v → Run config db v

upsert_agent-Changes :
    (slug name event_url stop_url : Text) (metadata : Metadata) (now : ℕ) (db : Db)
    → Changes db (upsert_agent slug name event_url stop_url metadata now db).1
unfolding upsert_agent
upsert_agent-Changes slug name event_url stop_url metadata now db =
    elim (Option-cases (fetchrow (has_slug slug) db.agents)) [
      | inl e ↦ rw (e, upsert_agent) (next here (Change.aside refl refl))
      | inr (old, e) ↦ rw (e, upsert_agent) (next here (Change.aside refl refl))
    ]

-- A step is a few primitive changes.
pub Step-Changes : (config : Config) {db u : Db} → Step config db u → Changes db u
unfolding touch_agent mark_delivery_failed
Step-Changes config {db} (registers slug name event_url stop_url metadata now e) =
    rw e (upsert_agent-Changes slug name event_url stop_url metadata now db)
Step-Changes config (beats slug now e) = rw e (next here (Change.aside refl refl))
Step-Changes config {db} (messages r ids now e) = rw e ((send_message-Makes config ids now r).at db)
Step-Changes config {db} (notifies c event_id now k e) =
    rw e ((send_notification-Makes config event_id now c k).at db)
Step-Changes config {db} (closes_child thread_id now e) =
    rw e (close_thread-Changes config now thread_id db)
Step-Changes config {db} (delivers event_id now e) =
    rw e ((mark_event_delivered-Makes event_id now).at db)
Step-Changes config {db} (fails event_id text now e) =
    rw e ((mark_event_failed-Makes event_id text _ _ now).at db)
Step-Changes config {db} (reminds event_id thread_id recipient text now e) =
    rw e ((append_inactivity_event-Makes config now _ event_id thread_id recipient text).at db)

pub Run-Changes : (config : Config) {db u : Db} → Run config db u → Changes db u
Run-Changes config start = here
Run-Changes config (then_step run step) =
    Changes-trans (Run-Changes config run) (Step-Changes config step)
