-- ===== src/Change.antt =====
-- What one transaction can do to the threads and the events, whichever flow runs it: the primitive
-- changes of the store, and the actions that make nothing but such changes. Invariants are proved
-- once for each primitive change.
pub mod Actions
pub mod Operations
pub mod Flows
pub mod Notices
pub mod Steps
use orchestra_threads.Prelude.{
  ℕ, ◌+◌, ◌≡◌, refl, ◌≢◌, Bool, true, false, ◌&&◌, ◌||◌, not, Option, none, some, List, [], ◌∷◌,
  ◌++◌, coalesce, is_some, if◌then◌else◌,
}
use orchestra_threads.Text.{Text, ◌==◌}
use orchestra_threads.Common.{Status, opened, is_terminal}
use orchestra_threads.Sql.{update, exists_row}
use orchestra_threads.Rows.{Db, Thread, ThreadEvent}
use orchestra_threads.Store.Query.{has_id, event_of, has_parent, is_live, get_thread}
use orchestra_threads.Store.Creation.{has_participants}
use orchestra_threads.Store.Events.{
  EventInsertRequest, inserted_event, updated_thread, event_key_taken,
}
use orchestra_threads.Store.Delivery.{canceled_event}
use orchestra_threads.Store.Notifications.{terminated}

-- The two columns `parent_thread_id` agree.
abbrev pub same_parent : Option Text → Option Text → Bool
same_parent none none = true
same_parent none (some q) = false
same_parent (some p) none = false
same_parent (some p) (some q) = q == p

-- Two rows that the keys of the table do not let stand together: the same id, or both live with one
-- parent (or none) and one pair of participants.
abbrev pub clashes : Thread → Thread → Bool
clashes t u =
    u.thread_id == t.thread_id
    || (same_parent t.parent_thread_id u.parent_thread_id
        && (has_participants t.participant_a_agent_slug t.participant_b_agent_slug u && is_live u))

-- The thread of that id is there, and is not terminal.
abbrev pub live_found : Option Thread → Bool
live_found none = false
live_found (some t) = is_live t

unfoldable pub live_in : Db → Text → Bool
live_in db thread_id = live_found (get_thread db thread_id)

abbrev pub parent_live : Db → Option Text → Bool
parent_live db none = true
parent_live db (some p) = live_in db p

-- A row that an INSERT may add.
pub record IsNew (db : Db) (t : Thread) : Type 0 where
  pub unclashed : exists_row (clashes t) db.threads ≡ false
  pub status : t.status ≡ opened
  pub unnumbered : t.last_sequence_no ≡ 0
  pub running : t.terminal_at ≡ none
  pub parent : parent_live db t.parent_thread_id ≡ true

-- An event that may be appended to the thread `t`.
pub record IsNext (db : Db) (r : EventInsertRequest) (t : Thread) : Type 0 where
  pub found : get_thread db r.thread_id ≡ some t
  pub live : is_live t ≡ true
  pub number : r.next_sequence ≡ t.last_sequence_no + 1
  pub free : event_key_taken db r ≡ false

-- The request sets `terminal_at` exactly if it sets a terminal status.
abbrev pub Coherent : EventInsertRequest → Type 0
Coherent r = r.set_terminal ≡ is_terminal (coalesce r.set_thread_status opened)

abbrev pub with_event : EventInsertRequest → Db → Db
with_event r db = record db {
  threads = update (has_id r.thread_id) (updated_thread r) db.threads;
  thread_events = db.thread_events ++ inserted_event r ∷ [];
}

abbrev pub is_pending_of : Text → ThreadEvent → Bool
is_pending_of thread_id e = event_of thread_id e && e.pending_delivery

abbrev pub canceled : Text → Text → Db → Db
canceled thread_id reason db = record db {
  thread_events = update (is_pending_of thread_id) (canceled_event reason) db.thread_events;
}

abbrev pub ended : Text → Status → ℕ → Db → Db
ended thread_id status now db = record db {
  threads = update (λ t. has_id thread_id t && is_live t) (terminated status now) db.threads;
}

-- An UPDATE of events that leaves their keys alone and makes none of them pending.
pub record KeepsEvent (f : ThreadEvent → ThreadEvent) : Type 0 where
  pub event_id : (e : ThreadEvent) → (f e).event_id ≡ e.event_id
  pub thread_id : (e : ThreadEvent) → (f e).thread_id ≡ e.thread_id
  pub number : (e : ThreadEvent) → (f e).sequence_no ≡ e.sequence_no
  pub pending : (e : ThreadEvent) → (f e).pending_delivery ≡ true → e.pending_delivery ≡ true

pub keeps_canceled : (reason : Text) → KeepsEvent (canceled_event reason)
unfolding canceled_event
keeps_canceled reason = record {
  event_id = λ e. refl;
  thread_id = λ e. refl;
  number = λ e. refl;
  pending = λ e h. absurd (cc);
}

-- An UPDATE of threads that changes none of the columns that the invariants speak of.
pub record KeepsThread (f : Thread → Thread) : Type 0 where
  pub thread_id : (t : Thread) → (f t).thread_id ≡ t.thread_id
  pub parent : (t : Thread) → (f t).parent_thread_id ≡ t.parent_thread_id
  pub a : (t : Thread) → (f t).participant_a_agent_slug ≡ t.participant_a_agent_slug
  pub b : (t : Thread) → (f t).participant_b_agent_slug ≡ t.participant_b_agent_slug
  pub status : (t : Thread) → (f t).status ≡ t.status
  pub number : (t : Thread) → (f t).last_sequence_no ≡ t.last_sequence_no
  pub terminal_at : (t : Thread) → (f t).terminal_at ≡ t.terminal_at

pub data Change (db u : Db) : Type 0 where
  -- Only agents or idempotency keys.
  aside : u.threads ≡ db.threads → u.thread_events ≡ db.thread_events → Change db u
  created :
      (t : Thread) → IsNew db t → u ≡ record db { threads = db.threads ++ t ∷ [] } → Change db u
  appended :
      (r : EventInsertRequest) (t : Thread)
      → IsNext db r t
      → Coherent r
      → is_terminal (coalesce r.set_thread_status opened) ≡ false
      → u ≡ with_event r db
      → Change db u
  -- A terminal event, and the pending events of its thread canceled with it.
  finished :
      (r : EventInsertRequest) (t : Thread) (reason : Text)
      → IsNext db r t
      → Coherent r
      → is_terminal (coalesce r.set_thread_status opened) ≡ true
      → r.interrupts_runtime ≡ false
      → u ≡ canceled r.thread_id reason (with_event r db)
      → Change db u
  -- A live thread is made terminal, and its pending events are canceled.
  closed :
      (thread_id : Text) (status : Status) (now : ℕ) (reason : Text)
      → is_terminal status ≡ true
      → u ≡ canceled thread_id reason (ended thread_id status now db)
      → Change db u
  redelivered :
      (p : ThreadEvent → Bool) (f : ThreadEvent → ThreadEvent)
      → KeepsEvent f
      → u ≡ record db { thread_events = update p f db.thread_events }
      → Change db u
  touched :
      (p : Thread → Bool) (f : Thread → Thread)
      → KeepsThread f
      → u ≡ record db { threads = update p f db.threads }
      → Change db u

pub data Changes (db : Db) : Db → Type 0 where
  here : Changes db db
  next : {u v : Db} → Changes db u → Change u v → Changes db v

pub Changes-trans : {db u v : Db} → Changes db u → Changes u v → Changes db v
Changes-trans h here = h
Changes-trans h (next k c) = next (Changes-trans h k) c
