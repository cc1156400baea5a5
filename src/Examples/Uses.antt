-- ===== src/Examples/Uses.antt =====
-- The theorems on runs and on the store, at the talk of "a" and "b".
use orchestra_threads.Text.{strip, lstrip_by, rstrip_by, is_space}
use orchestra_threads.Prelude.{◌≡◌, refl, true, false, ◌&&◌, not, none, some, [], ◌∷◌, ok, is_some}
use orchestra_threads.Text.{◌==◌}
use orchestra_threads.Common.{done, opened, is_terminal}
use orchestra_threads.Sql.{select, fetchrow, exists_row}
use orchestra_threads.Rows.{Db, Thread, message, empty_db}
use orchestra_threads.Requests.{NotificationRequestInput}
use orchestra_threads.Store.Query.{get_thread}
use orchestra_threads.Store.Events.{
  AppendEventRequest, append_thread_event, event_insert_request, inserted_event, updated_thread,
}
use orchestra_threads.Service.Config.{default_config}
use orchestra_threads.Service.Message.{send_message, send_message_with_lock_context}
use orchestra_threads.Service.Notification.{send_notification}
use orchestra_threads.Service.Delivery.{process_pending_events}
use orchestra_threads.Service.Inactivity.{process_inactivity_candidates}
use orchestra_threads.Change.{live_in}
use orchestra_threads.Change.Steps.{Run}
use orchestra_threads.Invariant.Numbering.{numbers_of, count_to}
use orchestra_threads.Invariant.Final.{EndsAs}
use orchestra_threads.Runs.Threads.{
  numbered_without_gaps, terminal_is_final, terminal_at_iff_terminal, pending_only_on_live,
}
use orchestra_threads.Descendants.{CleanIds}
use orchestra_threads.Runs.Operations.{Reaches, send_message-Run, operations_are_runs}
use orchestra_threads.Runs.Appends.{append_succeeds}
use orchestra_threads.Runs.Repeats.{message_repeats}
use orchestra_threads.Examples.Talk.{
  hello, first_ids, talk_thread, talk_response, talk_db, talk_sent, talk-Run,
}

talk_found : get_thread talk_db (b't' ∷ []) ≡ some talk_thread
unfolding get_thread fetchrow ◌==◌
talk_found = refl

numbered_without_gaps_example :
    numbers_of talk_db.thread_events (b't' ∷ []) ≡ count_to talk_thread.last_sequence_no
numbered_without_gaps_example =
    numbered_without_gaps default_config (b't' ∷ []) talk_thread talk-Run talk_found

terminal_at_iff_terminal_example : is_some talk_thread.terminal_at ≡ is_terminal talk_thread.status
terminal_at_iff_terminal_example =
    terminal_at_iff_terminal default_config (b't' ∷ []) talk_thread talk-Run talk_found

pending_only_on_live_example :
    select (λ e. e.pending_delivery && not (live_in talk_db e.thread_id)) talk_db.thread_events ≡ []
pending_only_on_live_example = pending_only_on_live default_config talk-Run

-- A store with a thread that has ended under another pair, and the message of "a" in it.
abbrev ended_thread : Thread
ended_thread = record talk_thread { thread_id = b'o' ∷ []; status = done; terminal_at = some 900 }

abbrev ended_db : Db
ended_db = record empty_db { threads = ended_thread ∷ [] }

ended_found : get_thread ended_db (b'o' ∷ []) ≡ some ended_thread
unfolding get_thread fetchrow ◌==◌
ended_found = refl

abbrev after_hello : Db
after_hello = (send_message default_config first_ids 1000 (λ c. false) hello ended_db).1

terminal_is_final_example : EndsAs ended_thread (get_thread after_hello (b'o' ∷ []))
terminal_is_final_example =
    terminal_is_final default_config (b'o' ∷ []) ended_thread
      (send_message-Run default_config first_ids 1000 (λ c. false) hello ended_db) ended_found refl

abbrev done_input : NotificationRequestInput
done_input = record {
  from_agent_slug = b'a' ∷ [];
  to_agent_slug = b'b' ∷ [];
  thread_id = b't' ∷ [];
  status = b'd' ∷ b'o' ∷ b'n' ∷ b'e' ∷ [];
  message_text = b'd' ∷ [];
  client_request_id = b'3' ∷ [];
}

talk_clean : CleanIds talk_db.threads
unfolding strip lstrip_by rstrip_by is_space
talk_clean = ((refl, refl), tt)

operations_are_runs_example :
    Run default_config talk_db
      (send_message default_config first_ids 3000 (λ c. false) hello talk_db).1
    × (Reaches default_config talk_db
          (send_notification default_config first_ids.event_id 3000
            (λ c. false)
            done_input
            talk_db).outcome
        × (Run default_config talk_db
              (process_pending_events default_config 3000 (λ url item. none) talk_db)
            × Run default_config talk_db (
                process_inactivity_candidates default_config 3000 (λ n. []) (λ n. n ∷ []) talk_db)))
operations_are_runs_example =
    operations_are_runs default_config first_ids 3000 (λ c. false) talk_db hello done_input
      (λ url item. none) (λ n. []) (λ n. n ∷ []) talk_clean

abbrev reply_request : AppendEventRequest
reply_request = record {
  event_id = b'g' ∷ [];
  thread_id = b't' ∷ [];
  event_kind = message;
  notification_status = none;
  from_agent_slug = b'b' ∷ [];
  to_agent_slug = b'a' ∷ [];
  message_text = b'y' ∷ [];
  interrupts_runtime = true;
  requires_response = true;
  touch_activity = true;
  update_last_message_sender = true;
  set_thread_status = some opened;
  set_terminal = false;
}

reply_fresh : exists_row (λ e. e.event_id == b'g' ∷ []) talk_db.thread_events ≡ false
unfolding exists_row ◌==◌
reply_fresh = refl

append_succeeds_example :
    (append_thread_event reply_request 3000 talk_db).0
    ≡ ok (
      inserted_event (event_insert_request talk_thread reply_request 3000),
      updated_thread (event_insert_request talk_thread reply_request 3000) talk_thread,
    )
append_succeeds_example =
    append_succeeds default_config reply_request 3000 talk_thread talk-Run talk_found refl
      reply_fresh

message_repeats_example :
    send_message_with_lock_context default_config
      (record { thread_id = b'u' ∷ []; event_id = b'u' ∷ [] })
      5000
      hello
      talk_db
    ≡ (ok talk_response, talk_db)
message_repeats_example =
    message_repeats default_config first_ids
      (record { thread_id = b'u' ∷ []; event_id = b'u' ∷ [] }) 1000 5000 hello talk_response
      empty_db talk_db talk_sent
