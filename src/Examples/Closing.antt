-- ===== src/Examples/Closing.antt =====
-- "a" declares the thread with "b" done, and the threads below it are closed.
use orchestra_threads.Prelude.{◌≡◌, refl, true, false, none, some, [], ◌∷◌, ok}
use orchestra_threads.Text.{Text, lower, lit, strip, ◌==◌, is_space, lstrip_by, rstrip_by}
use orchestra_threads.Common.{status_text}
use orchestra_threads.Sql.{select, fetchrow, exists_row, update}
use orchestra_threads.Rows.{Db, Thread, ThreadEvent, Response, notification, timestamp_within_lease}
use orchestra_threads.Requests.{NotificationContext}
use orchestra_threads.Store.Agents.{get_agent}
use orchestra_threads.Store.Query.{get_thread}
use orchestra_threads.Store.Events.{
  append_thread_event, event_insert_request, event_key_taken, insert_event_and_update_thread,
  inserted_event, updated_thread,
}
use orchestra_threads.Store.Idempotency.{get_idempotent_result, save_idempotent_result}
use orchestra_threads.Service.Config.{default_config}
use orchestra_threads.Service.Cards.{
  agent_card_from_record, agent_metadata, agent_online, agent_type, backend_type, display_name,
  metadata_kind,
}
use orchestra_threads.Service.Summary.{
  attach_last_event, default_agents, resolve_peer_agent_slug, thread_scope, thread_summary,
}
use orchestra_threads.Service.Routing.{
  allowed_peers, contains, ensure_peer_allowed, stripped_slugs, thread_peer_agent_slug,
  validate_routing,
}
use orchestra_threads.Service.Notification.{
  send_notification_with_lock_context, build_notification_response, notification_thread,
  validate_notification_actor, allowed_notification_statuses,
}
use orchestra_threads.Common.{
  done, normalize_status, parse_status, is_printable_char, normalize_text_input,
}
use orchestra_threads.Requests.{
  NotificationRequestInput, build_notification_request, clean_notification_request,
  validate_notification_request, notification_status, notification_context,
}
use orchestra_threads.Store.Delivery.{cancel_pending_events_for_thread, canceled_event}
use orchestra_threads.Service.Notification.{send_notification}
use orchestra_threads.Prelude.{◌&&◌, not}
use orchestra_threads.Descendants.{is_orphan, parent_ended, CleanIds}
use orchestra_threads.Descendants.Cascade.{under}
use orchestra_threads.Descendants.Retried.{retry_resumes_cascade}
use orchestra_threads.Descendants.Notified.{SettlesTo}
use orchestra_threads.Descendants.Notifying.{notification_settles}
use orchestra_threads.Examples.Talk.{talk_thread, talk_event, talk_db, summary}
use orchestra_threads.Prelude.{false}

abbrev below : Text → Text → Thread
below id parent = record talk_thread { thread_id = id; parent_thread_id = some parent }

abbrev tree_db : Db
tree_db = record talk_db {
  threads = talk_thread ∷ below (b'q' ∷ []) (b't' ∷ []) ∷ below (b'r' ∷ []) (b'q' ∷ []) ∷ [];
}

abbrev done_input : NotificationRequestInput
done_input = record {
  from_agent_slug = b'a' ∷ [];
  to_agent_slug = b'b' ∷ [];
  thread_id = b't' ∷ [];
  status = lit " Done";
  message_text = b'd' ∷ [];
  client_request_id = b'2' ∷ [];
}

abbrev done_context : NotificationContext
done_context = record {
  thread_id = b't' ∷ [];
  from_agent_slug = b'a' ∷ [];
  to_agent_slug = b'b' ∷ [];
  status = done;
  message_text = b'd' ∷ [];
  requires_delivery = false;
  is_terminal = true;
  client_request_id = b'2' ∷ [];
}

abbrev done_thread : Thread
done_thread = record talk_thread {
  status = done;
  last_sequence_no = 2;
  last_activity_at = some 3000;
  updated_at = 3000;
  terminal_at = some 3000;
}

abbrev done_event : ThreadEvent
done_event = record talk_event {
  event_id = b'f' ∷ [];
  sequence_no = 2;
  event_kind = notification;
  notification_status = some done;
  message_text = b'd' ∷ [];
  interrupts_runtime = false;
  requires_response = false;
  pending_delivery = false;
  next_delivery_attempt_at = none;
  created_at = 3000;
}

abbrev done_response : Response
done_response = record {
  operation = notification;
  created_thread = none;
  thread = record (summary done_thread) { is_terminal = true };
  event = done_event;
}

done_built : build_notification_request (λ n. false) done_input ≡ ok done_context
unfolding build_notification_request clean_notification_request validate_notification_request
    notification_status notification_context normalize_status parse_status lit lower strip is_space
    lstrip_by rstrip_by normalize_text_input select ◌==◌ is_printable_char
done_built = refl

done_answered :
    (send_notification default_config (b'f' ∷ []) 3000 (λ n. false) done_input tree_db).reply
    ≡ ok done_response
unfolding select fetchrow exists_row update lit strip ◌==◌ is_space lstrip_by rstrip_by status_text
    get_agent get_thread append_thread_event event_insert_request event_key_taken
    insert_event_and_update_thread inserted_event updated_thread get_idempotent_result
    save_idempotent_result timestamp_within_lease agent_card_from_record agent_metadata agent_online
    agent_type backend_type display_name metadata_kind attach_last_event default_agents
    resolve_peer_agent_slug thread_scope thread_summary allowed_peers contains ensure_peer_allowed
    stripped_slugs thread_peer_agent_slug validate_routing send_notification_with_lock_context
    build_notification_response notification_thread validate_notification_actor
    allowed_notification_statuses build_notification_request clean_notification_request
    validate_notification_request notification_status notification_context normalize_status
    parse_status lower normalize_text_input is_printable_char send_notification
    cancel_pending_events_for_thread canceled_event
done_answered = refl

tree_clean : CleanIds tree_db.threads
unfolding strip is_space lstrip_by rstrip_by
tree_clean = ((refl, refl), ((refl, refl), ((refl, refl), tt)))

tree_settled : exists_row (is_orphan tree_db) tree_db.threads ≡ false
unfolding exists_row parent_ended get_thread fetchrow ◌==◌
tree_settled = refl

notification_settles_example :
    SettlesTo tree_db
      (send_notification default_config (b'f' ∷ []) 3000 (λ n. false) done_input tree_db).outcome
notification_settles_example =
    notification_settles default_config (b'f' ∷ []) 3000 (λ n. false) done_input done_context
      done_response tree_db done_built refl tree_clean tree_settled done_answered

-- The response is stored and the thread is done, but the cascade after it was cut off.
abbrev cut_db : Db
cut_db = record tree_db {
  threads = done_thread ∷ below (b'q' ∷ []) (b't' ∷ []) ∷ below (b'r' ∷ []) (b'q' ∷ []) ∷ [];
  idempotency_keys =
      record {
        from_agent_slug = b'a' ∷ [];
        client_request_id = b'2' ∷ [];
        operation_name = notification;
        response_json = done_response;
        created_at = 3000;
      }
      ∷ [];
}

cut_known : get_idempotent_result cut_db (b'a' ∷ []) (b'2' ∷ []) ≡ some done_response
unfolding get_idempotent_result fetchrow ◌==◌
cut_known = refl

cut_only :
    exists_row
      (λ t. is_orphan cut_db t && not (under (b't' ∷ []) t.thread_id t.parent_thread_id))
      cut_db.threads
    ≡ false
unfolding exists_row parent_ended get_thread fetchrow ◌==◌
cut_only = refl

retry_resumes_cascade_example :
    let sent = send_notification default_config (b'g' ∷ []) 4000 (λ n. false) done_input cut_db in
    (sent.reply ≡ ok done_response) × SettlesTo cut_db sent.outcome
unfolding strip is_space lstrip_by rstrip_by
retry_resumes_cascade_example =
    retry_resumes_cascade default_config (b'g' ∷ []) 4000 (λ n. false) done_input done_context
      done_response cut_db done_built cut_known refl
      ((refl, refl), ((refl, refl), ((refl, refl), tt))) cut_only
