-- ===== src/Examples/Talk.antt =====
-- Agent "a" writes to agent "b" in an empty store, and then says that it is at work.
use orchestra_threads.Prelude.{◌≡◌, refl, ap, sym, true, false, none, some, [], ◌∷◌, ok, ◌++◌, ℕ}
use orchestra_threads.Text.{lit, strip, ◌==◌, is_space, lstrip_by, rstrip_by, text_le}
use orchestra_threads.Common.{opened, in_progress, normalize_participants, status_text}
use orchestra_threads.Sql.{select, fetchrow, exists_row, update, insert_row, order_by, first_row}
use orchestra_threads.Rows.{
  Db, Thread, ThreadEvent, AgentCard, ThreadSummary, Response, message, notification, root,
  empty_db, no_metadata, timestamp_within_lease,
}
use orchestra_threads.Requests.{MessageRequest, NotificationContext, optional_text}
use orchestra_threads.Store.Agents.{get_agent}
use orchestra_threads.Store.Query.{get_thread}
use orchestra_threads.Store.Creation.{
  get_or_create_root_thread, get_or_create_child_thread, insert_root, insert_child, conflicts,
  open_root_by_pair, open_child_by_pair, find_root_by_participants, find_child_by_participants,
}
use orchestra_threads.Store.Events.{
  append_thread_event, event_insert_request, event_key_taken, insert_event_and_update_thread,
  inserted_event, updated_thread,
}
use orchestra_threads.Store.Idempotency.{get_idempotent_result, save_idempotent_result}
use orchestra_threads.Service.Config.{default_config}
use orchestra_threads.Service.Cards.{
  agent_card_from_record, agent_metadata, agent_online, agent_type, backend_type, display_name,
  metadata_kind,
}
use orchestra_threads.Service.Summary.{
  attach_last_event, default_agents, resolve_peer_agent_slug, thread_scope, thread_summary,
}
use orchestra_threads.Service.Routing.{
  allowed_peers, contains, ensure_peer_allowed, stripped_slugs, thread_peer_agent_slug,
  validate_routing,
}
use orchestra_threads.Service.Message.{
  NewIds, send_message_with_lock_context, build_message_response, resolve_message_thread,
  resolve_existing_thread, resolve_child_thread,
}
use orchestra_threads.Service.Notification.{
  send_notification_with_lock_context, build_notification_response, notification_thread,
  validate_notification_actor, allowed_notification_statuses,
}
use orchestra_threads.Change.Steps.{Run, start, then_step}
use orchestra_threads.Change.Steps

abbrev pub hello : MessageRequest
hello = record {
  from_agent_slug = b'a' ∷ [];
  to_agent_slug = b'b' ∷ [];
  message_text = b'h' ∷ [];
  thread_id = none;
  parent_thread_id = none;
  client_request_id = b'1' ∷ [];
}

abbrev pub first_ids : NewIds
first_ids = record { thread_id = b't' ∷ []; event_id = b'e' ∷ [] }

abbrev pub talk_thread : Thread
talk_thread = record {
  thread_id = b't' ∷ [];
  root_thread_id = b't' ∷ [];
  parent_thread_id = none;
  owner_agent_slug = b'a' ∷ [];
  participant_a_agent_slug = b'a' ∷ [];
  participant_b_agent_slug = b'b' ∷ [];
  status = opened;
  last_sequence_no = 1;
  last_message_sender_agent_slug = some (b'a' ∷ []);
  last_activity_at = some 1000;
  last_inactivity_event_at = none;
  created_at = 1000;
  updated_at = 1000;
  terminal_at = none;
}

abbrev card : ℕ → AgentCard
card slug = record {
  slug = slug ∷ [];
  display_name = slug ∷ [];
  agent_type = lit "registered";
  backend_type = lit "unknown";
  online = false;
  metadata = no_metadata;
  kind = none;
}

abbrev pub summary : Thread → ThreadSummary
summary t = record {
  thread = t;
  is_terminal = false;
  thread_scope = root;
  agents = record {
    owner = card b'a';
    participant_a = card b'a';
    participant_b = card b'b';
    peer = card b'b';
  };
  roles = record { owner_agent_slug = b'a' ∷ []; peer_agent_slug = b'b' ∷ [] };
  pair_label = lit "a <-> b";
  last_event = none;
}

abbrev pub talk_event : ThreadEvent
talk_event = record {
  event_id = b'e' ∷ [];
  thread_id = b't' ∷ [];
  sequence_no = 1;
  event_kind = message;
  notification_status = none;
  from_agent_slug = b'a' ∷ [];
  to_agent_slug = b'b' ∷ [];
  message_text = b'h' ∷ [];
  interrupts_runtime = true;
  requires_response = true;
  pending_delivery = true;
  delivery_attempt_count = 0;
  next_delivery_attempt_at = some 1000;
  delivered_at = none;
  last_delivery_error = none;
  created_at = 1000;
}

abbrev pub talk_response : Response
talk_response = record {
  operation = message;
  created_thread = some true;
  thread = summary talk_thread;
  event = talk_event;
}

abbrev pub talk_db : Db
talk_db = record {
  agents = [];
  idempotency_keys =
      record {
        from_agent_slug = b'a' ∷ [];
        client_request_id = b'1' ∷ [];
        operation_name = message;
        response_json = talk_response;
        created_at = 1000;
      }
      ∷ [];
  threads = talk_thread ∷ [];
  thread_events = talk_event ∷ [];
}

pub talk_sent :
    send_message_with_lock_context default_config first_ids 1000 hello empty_db
    ≡ (ok talk_response, talk_db)
unfolding select fetchrow exists_row update insert_row order_by first_row lit strip ◌==◌ is_space
    lstrip_by rstrip_by text_le normalize_participants optional_text get_agent get_thread
    get_or_create_root_thread get_or_create_child_thread insert_root insert_child conflicts
    open_root_by_pair open_child_by_pair find_root_by_participants find_child_by_participants
    append_thread_event event_insert_request event_key_taken insert_event_and_update_thread
    inserted_event updated_thread get_idempotent_result save_idempotent_result
    timestamp_within_lease agent_card_from_record agent_metadata agent_online agent_type
    backend_type display_name metadata_kind attach_last_event default_agents resolve_peer_agent_slug
    thread_scope thread_summary allowed_peers contains ensure_peer_allowed stripped_slugs
    thread_peer_agent_slug validate_routing send_message_with_lock_context build_message_response
    resolve_message_thread resolve_existing_thread resolve_child_thread
talk_sent = refl

pub talk-Run : Run default_config empty_db talk_db
talk-Run =
    then_step start (Steps.Step.messages hello first_ids 1000 (ap (λ p. p.1) (sym talk_sent)))

abbrev pub at_work : NotificationContext
at_work = record {
  thread_id = b't' ∷ [];
  from_agent_slug = b'a' ∷ [];
  to_agent_slug = b'b' ∷ [];
  status = in_progress;
  message_text = b'w' ∷ [];
  requires_delivery = true;
  is_terminal = false;
  client_request_id = b'2' ∷ [];
}

abbrev pub work_event : ThreadEvent
work_event = record talk_event {
  event_id = b'f' ∷ [];
  sequence_no = 2;
  event_kind = notification;
  notification_status = some in_progress;
  message_text = b'w' ∷ [];
  requires_response = false;
  next_delivery_attempt_at = some 2000;
  created_at = 2000;
}

abbrev pub work_thread : Thread
work_thread = record talk_thread {
  status = in_progress;
  last_sequence_no = 2;
  last_activity_at = some 2000;
  updated_at = 2000;
}

abbrev pub work_response : Response
work_response = record {
  operation = notification;
  created_thread = none;
  thread = summary work_thread;
  event = work_event;
}

abbrev pub work_db : Db
work_db = record talk_db {
  idempotency_keys =
      talk_db.idempotency_keys
      ++ record {
        from_agent_slug = b'a' ∷ [];
        client_request_id = b'2' ∷ [];
        operation_name = notification;
        response_json = work_response;
        created_at = 2000;
      }
        ∷ [];
  threads = work_thread ∷ [];
  thread_events = talk_event ∷ work_event ∷ [];
}

pub work_sent :
    send_notification_with_lock_context default_config (b'f' ∷ []) 2000 at_work talk_db
    ≡ (ok work_response, work_db)
unfolding select fetchrow exists_row update lit strip ◌==◌ is_space lstrip_by rstrip_by status_text
    get_agent get_thread append_thread_event event_insert_request event_key_taken
    insert_event_and_update_thread inserted_event updated_thread get_idempotent_result
    save_idempotent_result timestamp_within_lease agent_card_from_record agent_metadata agent_online
    agent_type backend_type display_name metadata_kind attach_last_event default_agents
    resolve_peer_agent_slug thread_scope thread_summary allowed_peers contains ensure_peer_allowed
    stripped_slugs thread_peer_agent_slug validate_routing send_notification_with_lock_context
    build_notification_response notification_thread validate_notification_actor
    allowed_notification_statuses
work_sent = refl
