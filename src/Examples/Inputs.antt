-- ===== src/Examples/Inputs.antt =====
-- The theorems on requests, permissions, the store's methods and the cascade, at small inputs.
use orchestra_threads.Prelude.{◌⊎◌, ◌++◌}
use orchestra_threads.Common.{status_text}
use orchestra_threads.Common.Statuses.{parse-normalize}
use orchestra_threads.Prelude.{
  ◌≤◌, ◌≡◌, refl, true, false, ◌&&◌, none, some, [], ◌∷◌, ok, length, All,
}
use orchestra_threads.Text.{Text, ◌==◌, lit, strip, is_space, lstrip_by, rstrip_by, text_le, lower}
use orchestra_threads.Common.{
  closed, in_progress, normalize_participants, is_printable_char, normalize_text_input,
  normalize_status, parse_status,
}
use orchestra_threads.Common.Laws.{
  normalize_participants_comm, IsAllowed, normalize_text_input-clean,
}
use orchestra_threads.Sql.{select, fetchrow, exists_row, order_by, insert_row, first_row}
use orchestra_threads.Rows.{Thread, empty_db}
use orchestra_threads.Requests.{
  NotificationRequestInput, NotificationContext, build_message_request, build_notification_request,
  clean_message_request, validate_message_request, optional_text, clean_notification_request,
  validate_notification_request, notification_status, notification_context,
}
use orchestra_threads.Requests.Checks.{
  IsComplete, IsAdmitted, accepted_message, accepted_notification,
}
use orchestra_threads.Store.Agents.{get_agent}
use orchestra_threads.Store.Query.{get_thread, is_live}
use orchestra_threads.Store.Creation.{
  RootThreadRequest, get_or_create_root_thread, new_thread, insert_root, open_root_by_pair,
  conflicts,
}
use orchestra_threads.Store.Pairs.{both_sides_find_root}
use orchestra_threads.Store.Delivery.{retry_delay_seconds, list_due_pending_events, due_at}
use orchestra_threads.Store.Retries.{Joins, retry_delay_lem, due_events_lem}
use orchestra_threads.Store.Idempotency.{get_idempotent_result}
use orchestra_threads.Service.Config.{default_config}
use orchestra_threads.Service.Notification.{allowed_notification_statuses}
use orchestra_threads.Service.Routing.{ensure_peer_allowed, validate_routing}
use orchestra_threads.Service.Permissions.{
  is_ok, are_participants, validate_routing_lem, notification_permitted,
}
use orchestra_threads.Service.Agents.{
  RegisterPayload, register_agent, required_agent_slug, resolve_callback_urls, agent_view,
}
use orchestra_threads.Service.Agents.Online.{registered_is_online}
use orchestra_threads.Service.Cards.{display_name}
use orchestra_threads.Rows.{Agent, no_metadata, timestamp_within_lease}
use orchestra_threads.Store.Agents.{upsert_agent, is_agent_online}
use orchestra_threads.Text.{rstrip_slash}
use orchestra_threads.Prelude.{arith}
use orchestra_threads.Examples.Talk.{
  hello, talk_thread, talk_db, at_work, work_response, work_db, work_sent,
}

normalize_participants_comm_example :
    (normalize_participants (b'b' ∷ []) (b'a' ∷ [])
      ≡ normalize_participants (b'a' ∷ []) (b'b' ∷ []))
    × (text_le
          (normalize_participants (b'b' ∷ []) (b'a' ∷ [])).0
          (normalize_participants (b'b' ∷ []) (b'a' ∷ [])).1
        ≡ true)
    × ((normalize_participants (b'b' ∷ []) (b'a' ∷ []) ≡ (strip (b'b' ∷ []), strip (b'a' ∷ [])))
        ⊎ (normalize_participants (b'b' ∷ []) (b'a' ∷ []) ≡ (strip (b'a' ∷ []), strip (b'b' ∷ []))))
normalize_participants_comm_example = normalize_participants_comm (b'b' ∷ []) (b'a' ∷ [])

abbrev broken : Text
broken = b'a' ∷ 0xD804 ∷ []

normalize_text_input-clean_example :
    All (IsAllowed (λ n. false)) (normalize_text_input (λ n. false) broken)
    × (normalize_text_input (λ n. false) (broken ++ b'b' ∷ [])
        ≡ normalize_text_input (λ n. false) broken ++ normalize_text_input (λ n. false) (b'b' ∷ []))
    × (All (IsAllowed (λ n. false)) broken → normalize_text_input (λ n. false) broken ≡ broken)
normalize_text_input-clean_example = normalize_text_input-clean (λ n. false) broken (b'b' ∷ [])

parse-normalize_example :
    parse_status (normalize_status ((32 ∷ []) ++ (lit "In_Progress" ++ (9 ∷ []))))
    ≡ some in_progress
unfolding lower lit is_space status_text
parse-normalize_example =
    parse-normalize in_progress (32 ∷ []) (lit "In_Progress") (9 ∷ []) (refl, tt) refl (refl, tt)

hello_built : build_message_request (λ n. false) hello ≡ ok hello
unfolding build_message_request clean_message_request validate_message_request optional_text strip
    is_space lstrip_by rstrip_by normalize_text_input select ◌==◌ is_printable_char
hello_built = refl

accepted_message_example :
    IsComplete hello.from_agent_slug hello.to_agent_slug hello.message_text
    × ((hello.from_agent_slug == hello.to_agent_slug) ≡ false)
accepted_message_example = accepted_message (λ n. false) hello hello hello_built

abbrev close_input : NotificationRequestInput
close_input = record {
  from_agent_slug = b'c' ∷ [];
  to_agent_slug = b'b' ∷ [];
  thread_id = b'p' ∷ [];
  status = lit " Closed";
  message_text = b'd' ∷ [];
  client_request_id = b'1' ∷ [];
}

abbrev close_context : NotificationContext
close_context = record {
  thread_id = b'p' ∷ [];
  from_agent_slug = b'c' ∷ [];
  to_agent_slug = b'b' ∷ [];
  status = closed;
  message_text = b'd' ∷ [];
  requires_delivery = false;
  is_terminal = true;
  client_request_id = b'1' ∷ [];
}

close_built : build_notification_request (λ n. false) close_input ≡ ok close_context
unfolding build_notification_request clean_notification_request validate_notification_request
    notification_status notification_context normalize_status parse_status lit lower strip is_space
    lstrip_by rstrip_by normalize_text_input select ◌==◌ is_printable_char
close_built = refl

accepted_notification_example : IsAdmitted (normalize_status (lit " Closed")) close_context
accepted_notification_example =
    accepted_notification (λ n. false) close_input close_context close_built

validate_routing_example :
    is_ok (validate_routing talk_thread (b'b' ∷ []) (b'a' ∷ []))
    ≡ (is_live talk_thread && are_participants talk_thread (b'b' ∷ []) (b'a' ∷ []))
validate_routing_example = validate_routing_lem talk_thread (b'b' ∷ []) (b'a' ∷ [])

at_work_new : get_idempotent_result talk_db (b'a' ∷ []) (b'2' ∷ []) ≡ none
unfolding get_idempotent_result fetchrow ◌==◌
at_work_new = refl

notification_permitted_example :
    (t : Thread) × ((get_thread talk_db (b't' ∷ []) ≡ some t)
      × ((is_live t ≡ true)
          × ((are_participants t (b'a' ∷ []) (b'b' ∷ []) ≡ true)
              × ((is_ok
                      (ensure_peer_allowed (get_agent talk_db (b'a' ∷ [])) (b'a' ∷ []) (b'b' ∷ []))
                    ≡ true)
                  × (allowed_notification_statuses
                        (b'a' ∷ [])
                        (strip t.owner_agent_slug)
                        in_progress
                      ≡ true)))))
notification_permitted_example =
    notification_permitted default_config (b'f' ∷ []) 2000 at_work talk_db work_db work_response
      at_work_new work_sent

abbrev root_request : RootThreadRequest
root_request = record {
  thread_id = b't' ∷ [];
  owner_agent_slug = b'b' ∷ [];
  from_agent_slug = b'b' ∷ [];
  to_agent_slug = b'a' ∷ [];
}

abbrev back_request : RootThreadRequest
back_request = record {
  thread_id = b'u' ∷ [];
  owner_agent_slug = b'a' ∷ [];
  from_agent_slug = b'a' ∷ [];
  to_agent_slug = b'b' ∷ [];
}

abbrev root_row : Thread
root_row = new_thread (b't' ∷ []) (b't' ∷ []) none (b'b' ∷ []) (b'a' ∷ []) (b'b' ∷ []) 1000

root_made :
    get_or_create_root_thread root_request 1000 empty_db
    ≡ (ok (root_row, true), record empty_db { threads = root_row ∷ [] })
unfolding get_or_create_root_thread insert_root open_root_by_pair conflicts normalize_participants
    text_le strip is_space lstrip_by rstrip_by select exists_row order_by insert_row first_row
root_made = refl

both_sides_find_root_example :
    get_or_create_root_thread back_request 2000 (record empty_db { threads = root_row ∷ [] })
    ≡ (ok (root_row, false), record empty_db { threads = root_row ∷ [] })
both_sides_find_root_example =
    both_sides_find_root empty_db (record empty_db { threads = root_row ∷ [] }) root_request
      back_request 1000 2000 root_row refl refl root_made

retry_delay_example :
    (retry_delay_seconds 3 2 30 ≤ 30)
    × ((retry_delay_seconds 3 2 30 ≤ retry_delay_seconds 4 2 30)
        × ((retry_delay_seconds 1 2 30 ≡ 2)
            × (retry_delay_seconds 14 2 30 ≡ retry_delay_seconds 11 2 30)))
retry_delay_example = retry_delay_lem 3 2 30

due_events_example :
    (length (list_due_pending_events talk_db 2000 16) ≤ 16)
    × All
        (λ d.
          Joins talk_db talk_db.thread_events d
          × ((d.event.pending_delivery ≡ true)
              × ((is_live d.thread ≡ true) × (due_at d.event ≤ 2000))))
        (list_due_pending_events talk_db 2000 16)
due_events_example = due_events_lem talk_db 2000 16

abbrev registration : RegisterPayload
registration = record {
  agent_slug = b'a' ∷ [];
  shown_name = [];
  event_callback_url = [];
  stop_callback_url = b's' ∷ [];
  base_url = b'h' ∷ b'/' ∷ [];
  metadata = no_metadata;
}

abbrev registered : Agent
registered = record {
  agent_slug = b'a' ∷ [];
  display_name = b'a' ∷ [];
  event_callback_url = lit "h/event";
  stop_callback_url = b's' ∷ [];
  metadata_json = no_metadata;
  registered_at = 1000;
  last_seen_at = 1000;
}

registration_answered :
    (register_agent default_config 1000 registration empty_db).0
    ≡ ok (record { agent = registered; online = true })
unfolding register_agent required_agent_slug resolve_callback_urls agent_view upsert_agent fetchrow
    display_name timestamp_within_lease lit strip rstrip_slash is_space lstrip_by rstrip_by
registration_answered = refl

registered_is_online_example :
    is_agent_online
      (register_agent default_config 1000 registration empty_db).1
      (strip (b'a' ∷ []))
      30
      2000
    ≡ true
registered_is_online_example =
    registered_is_online default_config 1000 2000 registration
      (record { agent = registered; online = true }) empty_db registration_answered (omega arith)
