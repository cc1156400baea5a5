-- ===== src/Store/Delivery.antt =====
-- store_delivery.py
use orchestra_threads.Prelude.{
  ℕ, ◌+◌, ◌-◌, ◌*◌, ◌^◌, Bool, false, ◌&&◌, ◌||◌, Option, none, some, List, [], ◌∷◌, Exec, pure,
  modify, min, max, length, take, leb, ltb, eqb, coalesce,
}
use orchestra_threads.Text.{Text, ◌==◌}
use orchestra_threads.Sql.{select, fetchrow, update, order_by}
use orchestra_threads.Rows.{Db, Agent, Thread, ThreadEvent, seconds}
use orchestra_threads.Store.Query.{event_of, is_live, get_thread}
use orchestra_threads.Store.Agents.{get_agent}

abbrev pub max_retry_exponent : ℕ
max_retry_exponent = 10

abbrev pub has_event_id : Text → ThreadEvent → Bool
has_event_id event_id e = e.event_id == event_id

-- COALESCE(e.next_delivery_attempt_at, e.created_at)
abbrev pub due_at : ThreadEvent → ℕ
due_at e = coalesce e.next_delivery_attempt_at e.created_at

-- A row of the join: the event, its thread, and the registered recipient, if there is one.
pub record DueEvent : Type 0 where
  pub event : ThreadEvent
  pub thread : Thread
  pub agent : Option Agent

-- JOIN threads ON the thread's id, LEFT JOIN agents ON the recipient. Both are primary keys.
unfoldable pub joined : Db → List ThreadEvent → List DueEvent
joined db [] = []
joined db (e ∷ es) =
    let rest = joined db es in
    elim (get_thread db e.thread_id) [
      | none ↦ rest
      | some t ↦ record { event = e; thread = t; agent = get_agent db e.to_agent_slug } ∷ rest
    ]

abbrev pub is_due : ℕ → DueEvent → Bool
is_due now d = d.event.pending_delivery && (is_live d.thread && leb (due_at d.event) now)

-- By the due time, then `created_at`, then `sequence_no`, all ASC.
abbrev pub due_earlier : DueEvent → DueEvent → Bool
due_earlier x y =
    ltb (due_at x.event) (due_at y.event)
    || (eqb (due_at x.event) (due_at y.event)
        && (ltb x.event.created_at y.event.created_at
            || (eqb x.event.created_at y.event.created_at
                && leb x.event.sequence_no y.event.sequence_no)))

unfoldable pub list_due_pending_events : Db → ℕ → ℕ → List DueEvent
unfolding joined
list_due_pending_events db now limit =
    take (max 1 limit) (order_by due_earlier (select (is_due now) (joined db db.thread_events)))

unfoldable pub delivered_event : ℕ → ThreadEvent → ThreadEvent
delivered_event now e = record e {
  pending_delivery = false;
  next_delivery_attempt_at = none;
  delivered_at = some now;
  last_delivery_error = none;
}

unfoldable pub mark_event_delivered : Text → ℕ → Exec Db (Unit {0})
unfolding delivered_event
mark_event_delivered event_id now = modify λ db. record db {
  thread_events = update (has_event_id event_id) (delivered_event now) db.thread_events;
}

-- `attempt_count` is at least 1 at the one call.
unfoldable pub retry_delay_seconds : ℕ → ℕ → ℕ → ℕ
retry_delay_seconds attempt_count retry_base_seconds retry_max_seconds =
    let exponent = min (attempt_count - 1) max_retry_exponent in
    min retry_max_seconds (retry_base_seconds * 2 ^ exponent)

unfoldable pub failed_event : ℕ → ℕ → Text → ThreadEvent → ThreadEvent
failed_event next_attempt_count next_time error_text e = record e {
  delivery_attempt_count = next_attempt_count;
  next_delivery_attempt_at = some next_time;
  last_delivery_error = some (take 4000 error_text);
}

unfoldable pub mark_event_failed : Text → Text → ℕ → ℕ → ℕ → Exec Db (Unit {0})
unfolding failed_event retry_delay_seconds
mark_event_failed event_id error_text retry_base_seconds retry_max_seconds now db =
    elim (fetchrow (has_event_id event_id) db.thread_events) [
      | none ↦ pure tt db
      | some row ↦
          let next_attempt_count = row.delivery_attempt_count + 1 in
          let retry_seconds =
            retry_delay_seconds next_attempt_count retry_base_seconds retry_max_seconds in
          pure tt (record db {
            thread_events =
                update (has_event_id event_id)
                  (failed_event next_attempt_count (now + seconds retry_seconds) error_text)
                  db.thread_events;
          })
    ]

unfoldable pub canceled_event : Text → ThreadEvent → ThreadEvent
canceled_event reason e = record e {
  pending_delivery = false;
  next_delivery_attempt_at = none;
  last_delivery_error = some (coalesce e.last_delivery_error (take 4000 reason));
}

-- The number of rows that the UPDATE touched is what the driver's status text ends in.
unfoldable pub cancel_pending_events_for_thread : Text → Text → Exec Db ℕ
unfolding canceled_event
cancel_pending_events_for_thread thread_id reason db =
    let pending = λ (e : ThreadEvent). event_of thread_id e && e.pending_delivery in
    pure (length (select pending db.thread_events))
      (record db { thread_events = update pending (canceled_event reason) db.thread_events })
