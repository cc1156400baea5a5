-- ===== src/Service/Message.antt =====
-- service/flows/message_flow.py. `uuid.uuid4()` is an argument of each call that makes an id.
use orchestra_threads.Prelude.{
  ℕ, Bool, true, false, Option, none, some, ◌++◌, Exec, pure, lift, or_raise, gets, check, not,
  service_error, ◌>>=◌, ◌>>◌,
}
use orchestra_threads.Text.{Text, lit}
use orchestra_threads.Common.{opened, is_terminal}
use orchestra_threads.Rows.{Db, Thread, message, Response}
use orchestra_threads.Store.Agents.{get_agent}
use orchestra_threads.Store.Query.{get_thread}
use orchestra_threads.Store.Creation.{get_or_create_root_thread, get_or_create_child_thread}
use orchestra_threads.Store.Events.{AppendEventRequest, append_thread_event}
use orchestra_threads.Store.Idempotency.{get_idempotent_result, save_idempotent_result}
use orchestra_threads.Requests.{
  MessageRequest, MessageRequestInput, optional_text, message_request_context,
  build_message_request,
}
use orchestra_threads.Service.Config.{Config}
use orchestra_threads.Service.Summary.{thread_summary, plain_payload}
use orchestra_threads.Service.Routing.{
  thread_peer_agent_slug, validate_routing, ensure_peer_allowed,
}

unfoldable pub resolve_existing_thread : Text → Text → Text → Exec Db (Thread × Bool)
resolve_existing_thread thread_id from_agent_slug to_agent_slug = do
  found ← gets (λ db. get_thread db thread_id)
  thread ← or_raise (service_error 404 (lit "Unknown thread_id: " ++ thread_id)) found
  lift (validate_routing thread from_agent_slug to_agent_slug)
  pure (thread, false)

unfoldable pub resolve_child_thread : Text → Text → Text → Text → ℕ → Exec Db (Thread × Bool)
resolve_child_thread parent_thread_id from_agent_slug to_agent_slug new_thread_id now = do
  found ← gets (λ db. get_thread db parent_thread_id)
  parent ← or_raise (service_error 404 (lit "Unknown parent_thread_id: " ++ parent_thread_id)) found
  check (not (is_terminal parent.status))
      (service_error 409 (lit "Parent thread " ++ (parent_thread_id ++ lit " is already terminal")))
  lift (thread_peer_agent_slug parent from_agent_slug)
  get_or_create_child_thread
      (record {
        thread_id = new_thread_id;
        root_thread_id = parent.root_thread_id;
        parent_thread_id = parent_thread_id;
        owner_agent_slug = from_agent_slug;
        from_agent_slug = from_agent_slug;
        to_agent_slug = to_agent_slug;
      })
      now

unfoldable pub resolve_message_thread :
    Option Text → Option Text → Text → Text → Text → ℕ → Exec Db (Thread × Bool)
unfolding resolve_existing_thread resolve_child_thread
resolve_message_thread (some thread_id) parent from_agent_slug to_agent_slug new_id now =
    resolve_existing_thread thread_id from_agent_slug to_agent_slug
resolve_message_thread none (some parent) from_agent_slug to_agent_slug new_id now =
    resolve_child_thread parent from_agent_slug to_agent_slug new_id now
resolve_message_thread none none from_agent_slug to_agent_slug new_id now =
    get_or_create_root_thread
      (record {
        thread_id = new_id;
        owner_agent_slug = from_agent_slug;
        from_agent_slug = from_agent_slug;
        to_agent_slug = to_agent_slug;
      })
      now

abbrev pub message_event : MessageRequest → Text → Text → AppendEventRequest
message_event r event_id thread_id = record {
  event_id = event_id;
  thread_id = thread_id;
  event_kind = message;
  notification_status = none;
  from_agent_slug = r.from_agent_slug;
  to_agent_slug = r.to_agent_slug;
  message_text = r.message_text;
  interrupts_runtime = true;
  requires_response = true;
  touch_activity = true;
  update_last_message_sender = true;
  set_thread_status = some opened;
  set_terminal = false;
}

-- The two ids that a call may draw.
pub record NewIds : Type 0 where
  pub thread_id : Text
  pub event_id : Text

module _ (config : Config) (ids : NewIds) (now : ℕ) where
  unfoldable pub build_message_response : MessageRequest → Exec Db Response
  unfolding resolve_message_thread optional_text
  build_message_response r = do
    (thread, created_thread) ←
        resolve_message_thread (optional_text r.thread_id) (optional_text r.parent_thread_id)
          r.from_agent_slug r.to_agent_slug ids.thread_id now
    (event, thread_payload) ←
        append_thread_event (message_event r ids.event_id thread.thread_id) now
    pure (record {
      operation = message;
      created_thread = some created_thread;
      thread = thread_summary config now (plain_payload thread_payload);
      event = event;
    })

  abbrev pub answer : MessageRequest → Option Response → Exec Db Response
  answer r (some cached) = pure cached
  answer r none = do
    response ← build_message_response r
    save_idempotent_result r.from_agent_slug r.client_request_id message response now
    pure response

  unfoldable pub send_message_with_lock_context : MessageRequest → Exec Db Response
  unfolding build_message_response
  send_message_with_lock_context r = do
    from_agent ← gets (λ db. get_agent db r.from_agent_slug)
    lift (ensure_peer_allowed from_agent r.from_agent_slug r.to_agent_slug)
    cached ← gets (λ db. get_idempotent_result db r.from_agent_slug r.client_request_id)
    answer r cached

  -- `is_other` is the Unicode category test of common.py.
  unfoldable pub send_message : (ℕ → Bool) → MessageRequestInput → Exec Db Response
  unfolding send_message_with_lock_context
  send_message is_other input = do
    request ← lift (build_message_request is_other input)
    send_message_with_lock_context (message_request_context request)
