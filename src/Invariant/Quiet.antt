-- ===== src/Invariant/Quiet.antt =====
-- An event that waits for delivery belongs to a live thread.
use orchestra_threads.Prelude.{
  ℕ, ◌≡◌, refl, ap, ◌∙◌, Bool, true, false, List, [], ◌∷◌, ◌++◌, arith, All, All-append, All-map,
  coalesce, not, ◌&&◌,
}
use orchestra_threads.Text.{Text, ◌==◌, eq_iff}
use orchestra_threads.Common.{Status, is_terminal, opened}
use orchestra_threads.Sql.{fetchrow, update}
use orchestra_threads.Sql.Laws.{fetchrow-append, All-update, All-update_to}
use orchestra_threads.Rows.{Db, Thread, ThreadEvent}
use orchestra_threads.Store.Query.{has_id, get_thread, is_live}
use orchestra_threads.Store.Events.{EventInsertRequest, inserted_event, updated_thread}
use orchestra_threads.Store.Delivery.{canceled_event}
use orchestra_threads.Store.Notifications.{terminated}
use orchestra_threads.Change
use orchestra_threads.Change.{live_in, live_found, is_pending_of}

-- `alive` is `live_in` of the store.
abbrev QuietFor : (Text → Bool) → ThreadEvent → Type 0
QuietFor alive e = e.pending_delivery ≡ true → alive e.thread_id ≡ true

abbrev pub IsQuiet : Db → Type 0
IsQuiet db = All (QuietFor (live_in db)) db.thread_events

-- Threads stay live under an UPDATE that keeps ids and leaves the thread in question live.
live_in-update :
    (threads : List Thread) (p : Thread → Bool) (f : Thread → Thread) (thread_id : Text)
    → ((x : Thread) → (f x).thread_id ≡ x.thread_id)
    → ((x : Thread)
        → has_id thread_id x ≡ true
        → p x ≡ true
        → is_live x ≡ true
        → is_live (f x) ≡ true)
    → live_found (fetchrow (has_id thread_id) threads) ≡ true
    → live_found (fetchrow (has_id thread_id) (update p f threads)) ≡ true
unfolding fetchrow update
live_in-update [] p f thread_id ids keep h = h
live_in-update (x ∷ xs) p f thread_id ids keep h =
    ground (arith, ids x, keep x, live_in-update xs p f thread_id ids keep)

created-live :
    (db : Db) (t : Thread) (thread_id : Text)
    → live_in db thread_id ≡ true
    → live_in (record db { threads = db.threads ++ t ∷ [] }) thread_id ≡ true
unfolding live_in get_thread
created-live db t thread_id h = ground (arith, fetchrow-append (has_id thread_id) db.threads t)

-- An event that does not end its thread leaves it live.
appended-live :
    (db : Db) (r : EventInsertRequest) (thread_id : Text)
    → is_terminal (coalesce r.set_thread_status opened) ≡ false
    → live_in db thread_id ≡ true
    → live_in (Change.with_event r db) thread_id ≡ true
unfolding live_in get_thread updated_thread
appended-live db r thread_id l h =
    live_in-update db.threads _ _ thread_id (λ x. refl) (λ x _ _ live. still x live) h
  where
    still :
        (x : Thread)
        → is_live x ≡ true
        → not (is_terminal (coalesce r.set_thread_status x.status)) ≡ true
    still x live = ground (arith, l)

-- Another thread than the one whose row is changed stays live.
other_live :
    (db : Db) (p : Thread → Bool) (f : Thread → Thread) (changed thread_id : Text)
    → ((x : Thread) → (f x).thread_id ≡ x.thread_id)
    → ((x : Thread) → p x ≡ true → has_id changed x ≡ true)
    → (changed == thread_id) ≡ false
    → live_in db thread_id ≡ true
    → live_in (record db { threads = update p f db.threads }) thread_id ≡ true
unfolding live_in get_thread
other_live db p f changed thread_id ids only ne h =
    live_in-update db.threads p f thread_id ids
      (λ x a b live. ground (
        arith,
        only x b,
        eq_iff x.thread_id thread_id,
        eq_iff x.thread_id changed,
        eq_iff changed thread_id,
      ))
      h

-- The events of a thread that has ended are canceled.
canceled-IsQuiet :
    (alive alive' : Text → Bool) (thread_id reason : Text) (events : List ThreadEvent)
    → ((i : Text) → (thread_id == i) ≡ false → alive i ≡ true → alive' i ≡ true)
    → All (QuietFor alive) events
    → All (QuietFor alive') (update (is_pending_of thread_id) (canceled_event reason) events)
unfolding canceled_event
canceled-IsQuiet alive alive' thread_id reason events other h =
    All-update_to (QuietFor alive) (QuietFor alive') (is_pending_of thread_id)
      (canceled_event reason) (λ e hit q pending. absurd (cc))
      (λ e miss q pending.
        other e.thread_id
          (ground
            (arith, miss, pending, eq_iff thread_id e.thread_id, eq_iff e.thread_id thread_id))
          (q pending))
      events h

-- The new event waits only if its thread, which is live, stays so.
inserted-quiet :
    (db : Db) (r : EventInsertRequest) (t : Thread)
    → Change.IsNext db r t
    → is_terminal (coalesce r.set_thread_status opened) ≡ false
    → QuietFor (live_in (Change.with_event r db)) (inserted_event r)
unfolding inserted_event
inserted-quiet db r t n l pending =
    appended-live db r r.thread_id l (unfold live_in in rw n.found n.live)

finished-IsQuiet :
    (db : Db) (r : EventInsertRequest) (reason : Text)
    → r.interrupts_runtime ≡ false
    → IsQuiet db
    → IsQuiet (Change.canceled r.thread_id reason (Change.with_event r db))
unfolding live_in get_thread inserted_event
finished-IsQuiet db r reason q h =
    canceled-IsQuiet (live_in db) (live_in (Change.with_event r db)) r.thread_id reason
      (db.thread_events ++ inserted_event r ∷ [])
      (λ i ne live.
        unfold updated_thread in
        other_live db (has_id r.thread_id) (updated_thread r) r.thread_id i (λ x. refl)
          (λ x hit. hit) ne live)
      (All-append (QuietFor (live_in db)) db.thread_events (inserted_event r ∷ []) h
        ((λ pending. absurd (cc (q, pending))), tt))

closed-IsQuiet :
    (db : Db) (thread_id reason : Text) (status : Status) (now : ℕ)
    → IsQuiet db
    → IsQuiet (Change.canceled thread_id reason (Change.ended thread_id status now db))
unfolding live_in get_thread
closed-IsQuiet db thread_id reason status now h =
    canceled-IsQuiet (live_in db) (live_in (Change.ended thread_id status now db)) thread_id reason
      db.thread_events
      (λ i ne live.
        unfold terminated in
        other_live db (λ t. has_id thread_id t && is_live t) (terminated status now) thread_id i
          (λ x. refl) (λ x hit. ground (arith, hit)) ne live)
      h

-- Every change keeps the pending events on live threads.
pub Change-IsQuiet : {db u : Db} → Change.Change db u → IsQuiet db → IsQuiet u
unfolding live_in get_thread
Change-IsQuiet (Change.aside e k) h = rw (e, k) h
Change-IsQuiet {db} (Change.created t n e) h =
    rw e (All-map _ _ db.thread_events (λ ev q p. created-live db t ev.thread_id (q p)) h)
Change-IsQuiet {db} (Change.appended r t n c l e) h = rw e (
    All-append _ db.thread_events (inserted_event r ∷ [])
      (All-map _ _ db.thread_events (λ ev q p. appended-live db r ev.thread_id l (q p)) h)
      (inserted-quiet db r t n l, tt))
Change-IsQuiet {db} (Change.finished r t reason n c l q e) h =
    rw e (finished-IsQuiet db r reason q h)
Change-IsQuiet {db} (Change.closed i s now reason k e) h = rw e (closed-IsQuiet db i reason s now h)
Change-IsQuiet {db} (Change.redelivered p f k e) h = rw e (
    All-update (QuietFor (live_in db)) p f
      (λ ev hit quiet pending. rw (k.thread_id ev) (quiet (k.pending ev pending))) db.thread_events
      h)
Change-IsQuiet {db} (Change.touched p f k e) h = rw e (
    All-map _ _ db.thread_events
      (λ ev quiet pending.
        live_in-update db.threads p f ev.thread_id k.thread_id
          (λ x _ _ live. ap (λ s. not (is_terminal s)) (k.status x) ∙ live) (quiet pending))
      h)
