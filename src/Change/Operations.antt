-- ===== src/Change/Operations.antt =====
-- The operations of the store make nothing but primitive changes.
use orchestra_threads.Prelude.{
  ℕ, ◌≡◌, refl, false, some, ◌++◌, Error, Result, ok, err, key_error, value_error, unique_violation,
  inl, inr, Bool-cases, Option-cases, coalesce,
}
use orchestra_threads.Text.{Text, lit}
use orchestra_threads.Common.{opened, is_terminal}
use orchestra_threads.Sql.{fetchrow, exists_row}
use orchestra_threads.Rows.{Db, Thread, ThreadEvent, EventKind, Response}
use orchestra_threads.Store.Query.{get_thread}
use orchestra_threads.Store.Events.{
  AppendEventRequest, append_thread_event, event_insert_request, inserted_event, updated_thread,
  event_key_taken, insert_event_and_update_thread,
}
use orchestra_threads.Store.Delivery.{
  mark_event_delivered, mark_event_failed, delivered_event, failed_event,
  cancel_pending_events_for_thread, has_event_id,
}
use orchestra_threads.Store.Idempotency.{has_key, save_idempotent_result}
use orchestra_threads.Store.Notifications.{mark_inactivity_sent}
use orchestra_threads.Change
use orchestra_threads.Change.{Change, Changes, here, next, IsNext, with_event}
use orchestra_threads.Change.Actions.{Makes}

-- How `append_thread_event` ends: refused, with nothing written, or done.
pub data Appending (request : AppendEventRequest) (now : ℕ) (db : Db)
    (out : Result (ThreadEvent × Thread) × Db) : Type 0 where
  refused : (e : Error) → out ≡ (err e, db) → Appending request now db out
  done :
      (t : Thread)
      → IsNext db (event_insert_request t request now) t
      → out ≡ (
        ok (
          inserted_event (event_insert_request t request now),
          updated_thread (event_insert_request t request now) t,
        ),
        with_event (event_insert_request t request now) db,
      )
      → Appending request now db out

insert-Appending :
    (request : AppendEventRequest) (now : ℕ) (db : Db) (t : Thread)
    → get_thread db request.thread_id ≡ some t
    → is_terminal t.status ≡ false
    → Appending request now db
        (insert_event_and_update_thread (event_insert_request t request now) t db)
unfolding insert_event_and_update_thread event_insert_request
insert-Appending request now db t found live =
    elim (Bool-cases (event_key_taken db (event_insert_request t request now))) [
      | inl e ↦ refused unique_violation (rw e)
      | inr e ↦ done t (record { found = found; live = rw live; number = refl; free = e }) (rw e)
    ]

pub append_thread_event-Appending :
    (request : AppendEventRequest) (now : ℕ) (db : Db)
    → Appending request now db (append_thread_event request now db)
unfolding append_thread_event
append_thread_event-Appending request now db =
    elim (Option-cases (get_thread db request.thread_id)) [
      | inl e ↦ refused (key_error (lit "Unknown thread_id: " ++ request.thread_id)) (rw e)
      | inr (t, e) ↦ elim (Bool-cases (is_terminal t.status)) [
        | inl k ↦
            refused (value_error (lit "Thread " ++ request.thread_id ++ lit " is already terminal"))
              (rw (e, k))
        | inr k ↦ rw (e, k) (insert-Appending request now db t e k)
      ]
    ]

abbrev pub SetsTerminal : AppendEventRequest → Type 0
SetsTerminal request =
    request.set_terminal ≡ is_terminal (coalesce request.set_thread_status opened)

pub append_thread_event-Makes :
    (request : AppendEventRequest) (now : ℕ)
    → SetsTerminal request
    → is_terminal (coalesce request.set_thread_status opened) ≡ false
    → Makes (append_thread_event request now)
append_thread_event-Makes request now c l = record {
  at = λ db.
      one db (append_thread_event request now db) (append_thread_event-Appending request now db);
}
  where
    one :
        (db : Db) (out : Result (ThreadEvent × Thread) × Db)
        → Appending request now db out
        → Changes db out.1
    one db out (refused e q) = rw q here
    one db out (done t n q) = rw q (
        next here (
          Change.appended (event_insert_request t request now) t n
            (unfold event_insert_request in c) (unfold event_insert_request in l) refl))

keeps_delivered : (now : ℕ) → Change.KeepsEvent (delivered_event now)
unfolding delivered_event
keeps_delivered now = record {
  event_id = λ e. refl;
  thread_id = λ e. refl;
  number = λ e. refl;
  pending = λ e h. absurd (cc);
}

keeps_failed : (count time : ℕ) (text : Text) → Change.KeepsEvent (failed_event count time text)
unfolding failed_event
keeps_failed count time text = record {
  event_id = λ e. refl;
  thread_id = λ e. refl;
  number = λ e. refl;
  pending = λ e h. h;
}

pub mark_event_delivered-Makes :
    (event_id : Text) (now : ℕ) → Makes (mark_event_delivered event_id now)
unfolding mark_event_delivered
mark_event_delivered-Makes event_id now = record {
  at = λ db. next here (Change.redelivered _ _ (keeps_delivered now) refl);
}

pub mark_event_failed-Makes :
    (event_id text : Text) (base limit now : ℕ)
    → Makes (mark_event_failed event_id text base limit now)
unfolding mark_event_failed
mark_event_failed-Makes event_id text base limit now = record {
  at = λ db. elim (Option-cases (fetchrow (has_event_id event_id) db.thread_events)) [
    | inl e ↦ rw (e, mark_event_failed) here
    | inr (row, e) ↦
        rw (e, mark_event_failed) (next here (Change.redelivered _ _ (keeps_failed _ _ _) refl))
  ];
}

pub save_idempotent_result-Makes :
    (from id : Text) (kind : EventKind) (response : Response) (now : ℕ)
    → Makes (save_idempotent_result from id kind response now)
unfolding save_idempotent_result
save_idempotent_result-Makes from id kind response now = record {
  at = λ db. elim (Bool-cases (exists_row (has_key from id) db.idempotency_keys)) [
    | inl e ↦ rw e here
    | inr e ↦ rw e (next here (Change.aside refl refl))
  ];
}

pub mark_inactivity_sent-Makes :
    (thread_id : Text) (now : ℕ) → Makes (mark_inactivity_sent thread_id now)
unfolding mark_inactivity_sent
mark_inactivity_sent-Makes thread_id now = record {
  at = λ db. next here (
      Change.touched _ _
        (record {
          thread_id = λ t. refl;
          parent = λ t. refl;
          a = λ t. refl;
          b = λ t. refl;
          status = λ t. refl;
          number = λ t. refl;
          terminal_at = λ t. refl;
        })
        refl);
}

-- `cancel_pending_events_for_thread` alone.
pub cancel-Makes :
    (thread_id reason : Text) → Makes (cancel_pending_events_for_thread thread_id reason)
unfolding cancel_pending_events_for_thread
cancel-Makes thread_id reason = record {
  at = λ db. next here (Change.redelivered _ _ (Change.keeps_canceled reason) refl);
}
