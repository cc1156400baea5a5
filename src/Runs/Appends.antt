-- ===== src/Runs/Appends.antt =====
-- Appending an event to a reachable store: `append_thread_event` of store_thread_events.py.
use orchestra_threads.Prelude.{
  ℕ, zero, suc, ◌+◌, ◌<◌, ◌≡◌, refl, ◌∙◌, Bool, true, false, ◌&&◌, ◌||◌, some, List, [], ◌∷◌, ◌++◌,
  arith, eqb, ok, inl, inr, Bool-cases,
}
use orchestra_threads.Text.{Text, ◌==◌}
use orchestra_threads.Common.{is_terminal}
use orchestra_threads.Sql.{select, exists_row}
use orchestra_threads.Sql.Laws.{exists_row_or}
use orchestra_threads.Rows.{Db, Thread, ThreadEvent, empty_db}
use orchestra_threads.Store.Query.{event_of, get_thread, is_live}
use orchestra_threads.Store.Events.{
  AppendEventRequest, append_thread_event, insert_event_and_update_thread, event_insert_request,
  inserted_event, updated_thread, event_key_taken,
}
use orchestra_threads.Store.Delivery.{has_event_id}
use orchestra_threads.Service.Config.{Config}
use orchestra_threads.Change.Steps.{Run}
use orchestra_threads.Invariant.Numbering.{count_to, numbers_of}
use orchestra_threads.Runs.Threads.{numbered_without_gaps}

abbrev holds_number : ℕ → List ℕ → Bool
holds_number n [] = false
holds_number n (m ∷ ms) = eqb m n || holds_number n ms

holds-append :
    (n m : ℕ) (ms : List ℕ) → holds_number n (ms ++ m ∷ []) ≡ (holds_number n ms || eqb m n)
holds-append n m [] = ground arith
holds-append n m (k ∷ ks) = ground (arith, holds-append n m ks)

-- A number beyond the last one is free.
holds-count_to : (n m : ℕ) → m < n → holds_number n (count_to m) ≡ false
holds-count_to n zero h = refl
holds-count_to n (suc m) h =
    rw (holds-append n (suc m) (count_to m)) (ground (arith, holds-count_to n m))

taken-numbers :
    (thread_id : Text) (n : ℕ) (events : List ThreadEvent)
    → exists_row (λ e. e.thread_id == thread_id && eqb e.sequence_no n) events
      ≡ holds_number n (numbers_of events thread_id)
unfolding exists_row select
taken-numbers thread_id n [] = refl
taken-numbers thread_id n (e ∷ es) = elim (Bool-cases (event_of thread_id e)) [
  | inl h ↦ rw h (ground (arith, taken-numbers thread_id n es))
  | inr h ↦ rw h (ground (arith, taken-numbers thread_id n es))
]

-- In every store that the service reaches from the empty one, appending an event with a new id to a
-- thread that is not terminal succeeds: the event gets the next number of the thread.
pub append_succeeds :
    (config : Config) {db : Db} (request : AppendEventRequest) (now : ℕ) (t : Thread)
    → Run config empty_db db
    → get_thread db request.thread_id ≡ some t
    → is_live t ≡ true
    → exists_row (has_event_id request.event_id) db.thread_events ≡ false
    → (append_thread_event request now db).0
      ≡ ok (
        inserted_event (event_insert_request t request now),
        updated_thread (event_insert_request t request now) t,
      )
unfolding append_thread_event event_key_taken event_insert_request insert_event_and_update_thread
append_succeeds config {db} request now t run found live fresh =
    let n : ℕ = t.last_sequence_no + 1 in
    let free : event_key_taken db (event_insert_request t request now) ≡ false =
      exists_row_or (has_event_id request.event_id)
        (λ e. e.thread_id == request.thread_id && eqb e.sequence_no n) db.thread_events
      ∙ rw
          (
            fresh,
            taken-numbers request.thread_id n db.thread_events,
            numbered_without_gaps config request.thread_id t run found,
          )
          (holds-count_to n t.last_sequence_no (omega arith)) in
    let running : is_terminal t.status ≡ false = ground (arith, live) in
    rw (found, running, free) refl
