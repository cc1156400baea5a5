-- ===== src/Store/Events.antt =====
-- store_thread_events.py
use orchestra_threads.Prelude.{
  ℕ, ◌+◌, Bool, ◌&&◌, ◌||◌, Option, none, some, [], ◌∷◌, ◌++◌, key_error, value_error,
  unique_violation, Exec, pure, raise, check, or_raise, gets, ◌>>=◌, ◌>>◌, not, eqb, coalesce,
  if◌then◌else◌,
}
use orchestra_threads.Text.{Text, lit, ◌==◌}
use orchestra_threads.Common.{Status, is_terminal}
use orchestra_threads.Sql.{exists_row, update}
use orchestra_threads.Rows.{Db, Thread, ThreadEvent, EventKind}
use orchestra_threads.Store.Query.{has_id, get_thread}

pub record AppendEventRequest : Type 0 where
  pub event_id : Text
  pub thread_id : Text
  pub event_kind : EventKind
  pub notification_status : Option Status
  pub from_agent_slug : Text
  pub to_agent_slug : Text
  pub message_text : Text
  pub interrupts_runtime : Bool
  pub requires_response : Bool
  pub touch_activity : Bool
  pub update_last_message_sender : Bool
  pub set_thread_status : Option Status
  pub set_terminal : Bool

-- `EventInsertRequest`: the request with its number and its time.
pub record EventInsertRequest : Type 0 where
  pub request : AppendEventRequest
  pub open request use *
  pub next_sequence : ℕ
  pub now : ℕ

unfoldable pub event_insert_request : Thread → AppendEventRequest → ℕ → EventInsertRequest
event_insert_request thread request now = record {
  request = request;
  next_sequence = thread.last_sequence_no + 1;
  now = now;
}

-- The row of INSERT INTO thread_events.
unfoldable pub inserted_event : EventInsertRequest → ThreadEvent
inserted_event r = record {
  event_id = r.event_id;
  thread_id = r.thread_id;
  sequence_no = r.next_sequence;
  event_kind = r.event_kind;
  notification_status = r.notification_status;
  from_agent_slug = r.from_agent_slug;
  to_agent_slug = r.to_agent_slug;
  message_text = r.message_text;
  interrupts_runtime = r.interrupts_runtime;
  requires_response = r.requires_response;
  pending_delivery = r.interrupts_runtime;
  delivery_attempt_count = 0;
  next_delivery_attempt_at = if r.interrupts_runtime then some r.now else none;
  delivered_at = none;
  last_delivery_error = none;
  created_at = r.now;
}

-- The SET of UPDATE threads.
unfoldable pub updated_thread : EventInsertRequest → Thread → Thread
updated_thread r t = record t {
  updated_at = r.now;
  status = coalesce r.set_thread_status t.status;
  last_activity_at = if r.touch_activity then some r.now else t.last_activity_at;
  last_message_sender_agent_slug =
      if r.update_last_message_sender
      then some r.from_agent_slug
      else t.last_message_sender_agent_slug;
  terminal_at = if r.set_terminal then some (coalesce t.terminal_at r.now) else t.terminal_at;
  last_sequence_no = r.next_sequence;
}

-- The primary key of `thread_events`, and UNIQUE(thread_id, sequence_no).
unfoldable pub event_key_taken : Db → EventInsertRequest → Bool
event_key_taken db r =
    exists_row
      (λ e.
        e.event_id == r.event_id
        || (e.thread_id == r.thread_id && eqb e.sequence_no r.next_sequence))
      db.thread_events

unfoldable pub insert_event_and_update_thread :
    EventInsertRequest → Thread → Exec Db (ThreadEvent × Thread)
unfolding inserted_event updated_thread event_key_taken
insert_event_and_update_thread r thread db =
    if event_key_taken db r
    then raise unique_violation db
    else pure (inserted_event r, updated_thread r thread)
        (record db {
          threads = update (has_id r.thread_id) (updated_thread r) db.threads;
          thread_events = db.thread_events ++ inserted_event r ∷ [];
        })

unfoldable pub append_thread_event : AppendEventRequest → ℕ → Exec Db (ThreadEvent × Thread)
unfolding event_insert_request insert_event_and_update_thread get_thread
append_thread_event request now = do
  found ← gets (λ db. get_thread db request.thread_id)
  thread ← or_raise (key_error (lit "Unknown thread_id: " ++ request.thread_id)) found
  check (not (is_terminal thread.status))
      (value_error (lit "Thread " ++ request.thread_id ++ lit " is already terminal"))
  insert_event_and_update_thread (event_insert_request thread request now) thread
