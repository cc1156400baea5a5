-- ===== src/Service/Delivery.antt =====
-- service/flows/delivery_flow.py: one pass over the events that are due. What the agent's endpoint
-- answers to the request is a parameter: `none` for success, or the text of the exception.
-- `asyncio.gather` runs the items in the order of the list.
use orchestra_threads.Prelude.{ℕ, ◌||◌, Option, none, some, List, [], ◌∷◌, ◌++◌, if◌then◌else◌}
use orchestra_threads.Text.{Text, lit, strip, is_empty}
use orchestra_threads.Rows.{Db, Agent, ThreadEvent, timestamp_within_lease}
use orchestra_threads.Store.Delivery.{
  DueEvent, list_due_pending_events, mark_event_delivered, mark_event_failed,
}
use orchestra_threads.Service.Config.{Config}

-- The one event of the JSON that is posted.
pub record DeliveredItem : Type 0 where
  pub event : ThreadEvent
  pub root_thread_id : Text
  pub parent_thread_id : Option Text
  pub owner_agent_slug : Text

abbrev pub item_of : DueEvent → DeliveredItem
item_of d = record {
  event = d.event;
  root_thread_id = d.thread.root_thread_id;
  parent_thread_id = d.thread.parent_thread_id;
  owner_agent_slug = d.thread.owner_agent_slug;
}

abbrev callback_url : Option Agent → Text
callback_url none = []
callback_url (some agent) = strip agent.event_callback_url

abbrev seen_at : Option Agent → Option ℕ
seen_at none = none
seen_at (some agent) = some agent.last_seen_at

module _ (config : Config) (now : ℕ) (post : Text → DeliveredItem → Option Text) where
  unfoldable pub mark_delivery_failed : Text → Text → Db → Db
  mark_delivery_failed event_id error_text db =
      (mark_event_failed event_id error_text config.retry_base_seconds config.retry_max_seconds now
        db).1

  unfoldable pub deliver_pending_event : DueEvent → Text → Text → Db → Db
  unfolding mark_delivery_failed
  deliver_pending_event item url event_id db = elim (post url (item_of item)) [
    | none ↦ (mark_event_delivered event_id now db).1
    | some error_text ↦ mark_delivery_failed event_id error_text db
  ]

  unfoldable pub process_pending_event_item : DueEvent → Db → Db
  unfolding deliver_pending_event strip
  process_pending_event_item item db =
      let event_id = strip item.event.event_id in
      let target = strip item.event.to_agent_slug in
      if is_empty event_id || is_empty target
      then db
      else if is_empty (callback_url item.agent)
      then mark_delivery_failed event_id
          (lit "target agent " ++ (target ++ lit " is not registered or has no event callback")) db
      else if timestamp_within_lease (seen_at item.agent) config.agent_lease_seconds now
      then deliver_pending_event item (callback_url item.agent) event_id db
      else mark_delivery_failed event_id (lit "target agent " ++ (target ++ lit " is offline")) db

  unfoldable pub process_items : List DueEvent → Db → Db
  unfolding process_pending_event_item
  process_items [] db = db
  process_items (item ∷ items) db = process_items items (process_pending_event_item item db)

  unfoldable pub process_pending_events : Db → Db
  unfolding process_items
  process_pending_events db = process_items (list_due_pending_events db now 16) db
