-- ===== src/Descendants/Notifying.antt =====
-- A whole notification that ends a thread: the locked block, and the cascade after it.
use orchestra_threads.Prelude.{
  ℕ, ◌≡◌, refl, Bool, true, false, not, Option, none, some, List, [], ◌∷◌, Error, Result, ok, err,
  Exec, pure, lift, gets, check, or_raise, ◌>>=◌, inl, inr, Bool-cases, ap,
}
use orchestra_threads.Text.{Text}
use orchestra_threads.Common.{is_terminal}
use orchestra_threads.Sql.{update, exists_row}
use orchestra_threads.Rows.{Db, Thread, ThreadEvent, Response, EventKind}
use orchestra_threads.Requests.{
  NotificationContext, NotificationRequestInput, build_notification_request,
}
use orchestra_threads.Store.Query.{has_id, is_live}
use orchestra_threads.Store.Events.{append_thread_event, event_insert_request, updated_thread}
use orchestra_threads.Store.Delivery.{cancel_pending_events_for_thread}
use orchestra_threads.Store.Idempotency.{has_key, get_idempotent_result, save_idempotent_result}
use orchestra_threads.Service.Config.{Config}
use orchestra_threads.Service.Cascade.{Outcome}
use orchestra_threads.Service.Notification.{
  cancel_if, notification_thread, validate_notification_actor, build_notification_response,
  notification_event, answer, send_notification_with_lock_context, send_notification, finish,
  after_notification,
}
use orchestra_threads.Change.Operations.{Appending, refused, done, append_thread_event-Appending}
use orchestra_threads.Descendants.{is_orphan, CleanIds}
use orchestra_threads.Descendants.Aging.{Aged, Aged-trans, CleanIds-Aged}
use orchestra_threads.Descendants.Notified.{SettlesTo, cascade_settles}
use orchestra_threads.Descendants.Touching.{
  Touched, Touched-refl, Touched-trans, Touched-Aged, Touched-orphans,
}

-- Whether it returns or raises, `m` touches at most the thread `i`.
pub record TouchesOnly (i : Text) {A : Type 0} (m : Exec Db A) : Type 0 where
  pub at : (db : Db) → Touched i db.threads (m db).1.threads

still : (i : Text) (db : Db) → Touched i db.threads db.threads
still i db = Touched-refl i db.threads

module _ {A : Type 0} (i : Text) where
  touch_pure : (a : A) → TouchesOnly i (pure a)
  touch_pure a = record { at = still i }

  touch_lift : (r : Result A) → TouchesOnly i (lift r)
  touch_lift r = record { at = still i }

  touch_gets : (f : Db → A) → TouchesOnly i (gets f)
  touch_gets f = record { at = still i }

  touch_or_raise : (e : Error) (o : Option A) → TouchesOnly i (or_raise e o)
  touch_or_raise e none = record { at = still i }
  touch_or_raise e (some a) = record { at = still i }

touch_check : (i : Text) (b : Bool) (e : Error) → TouchesOnly i (check b e)
touch_check i true e = record { at = still i }
touch_check i false e = record { at = still i }

module _ {A B : Type 0} (i : Text) where
  after :
      (r : Result A) (db u : Db) (f : A → Exec Db B)
      → Touched i db.threads u.threads
      → ((a : A) → TouchesOnly i (f a))
      → Touched i db.threads ((lift r >>= f) u).1.threads
  after (ok a) db u f h k = Touched-trans i db.threads u.threads (f a u).1.threads h ((k a).at u)
  after (err e) db u f h k = h

  touch_then :
      (m : Exec Db A) (f : A → Exec Db B)
      → TouchesOnly i m
      → ((a : A) → TouchesOnly i (f a))
      → TouchesOnly i (m >>= f)
  touch_then m f h k = record { at = λ db. let (r, u) = m db in after r db u f (h.at db) k }

touch_save :
    (i from id : Text) (kind : EventKind) (response : Response) (now : ℕ)
    → TouchesOnly i (save_idempotent_result from id kind response now)
unfolding save_idempotent_result
touch_save i from id kind response now = record {
  at = λ db. elim (Bool-cases (exists_row (has_key from id) db.idempotency_keys)) [
    | inl e ↦ rw e (still i db)
    | inr e ↦ rw e (still i db)
  ];
}

touch_cancel : (b : Bool) (c : NotificationContext) → TouchesOnly c.thread_id (cancel_if b c)
unfolding cancel_pending_events_for_thread
touch_cancel false c = record { at = still c.thread_id }
touch_cancel true c = record { at = still c.thread_id }

-- An UPDATE of one id that leaves no thread live.
touch_update :
    (i : Text) (f : Thread → Thread) (xs : List Thread)
    → ((x : Thread) → (f x).thread_id ≡ x.thread_id)
    → ((x : Thread) → (f x).parent_thread_id ≡ x.parent_thread_id)
    → ((x : Thread) → is_live (f x) ≡ false)
    → Touched i xs (update (has_id i) f xs)
unfolding update
touch_update i f [] ids parents dead = tt
touch_update i f (x ∷ xs) ids parents dead = (
  elim (Bool-cases (has_id i x)) [
    | inl e ↦ rw e (record {
      thread_id = ids x;
      parent = parents x;
      live = λ l. absurd (cc (l, dead x));
      other = λ ne. absurd (cc (e, ne));
    })
    | inr e ↦ rw e (record { thread_id = refl; parent = refl; live = λ l. l; other = λ ne. refl })
  ],
  touch_update i f xs ids parents dead,
)

touch_append :
    (c : NotificationContext) (event_id : Text) (now : ℕ)
    → is_terminal c.status ≡ true
    → TouchesOnly c.thread_id (append_thread_event (notification_event c event_id) now)
unfolding updated_thread event_insert_request
touch_append c event_id now terminal = record {
  at = λ db.
      one db (append_thread_event (notification_event c event_id) now db)
        (append_thread_event-Appending (notification_event c event_id) now db);
}
  where
    one :
        (db : Db) (out : Result (ThreadEvent × Thread) × Db)
        → Appending (notification_event c event_id) now db out
        → Touched c.thread_id db.threads out.1.threads
    one db out (refused e p) = rw p (still c.thread_id db)
    one db out (done t n p) = rw p (
        touch_update c.thread_id
          (updated_thread (event_insert_request t (notification_event c event_id) now)) db.threads
          (λ x. refl) (λ x. refl) (λ x. ap not terminal))

ruleset touch_rules = (
  touch_pure, touch_lift, touch_gets, touch_or_raise, touch_check, touch_then, touch_save,
  touch_cancel,
)

module _ (config : Config) (event_id : Text) (now : ℕ) (c : NotificationContext) where
  touch_build :
      is_terminal c.status ≡ true
      → TouchesOnly c.thread_id (build_notification_response config event_id now c)
  unfolding build_notification_response
  touch_build terminal =
      touch_then c.thread_id _ _ (touch_append c event_id now terminal) λ (event, payload).
        touch_then c.thread_id _ _ (touch_cancel c.is_terminal c)
          λ canceled. touch_pure c.thread_id _

  touch_thread : TouchesOnly c.thread_id (notification_thread c)
  unfolding notification_thread
  touch_thread = search touch_rules

  touch_actor : (thread : Thread) → TouchesOnly c.thread_id (validate_notification_actor thread c)
  unfolding validate_notification_actor
  touch_actor thread = touch_check c.thread_id _ _

  touch_answer :
      (cached : Option Response)
      → is_terminal c.status ≡ true
      → TouchesOnly c.thread_id (answer config event_id now c cached)
  touch_answer (some response) terminal = touch_pure c.thread_id response
  touch_answer none terminal = search (touch_rules, touch_thread, touch_actor, touch_build) depth 20

  pub touch_locked :
      is_terminal c.status ≡ true
      → TouchesOnly c.thread_id (send_notification_with_lock_context config event_id now c)
  unfolding send_notification_with_lock_context
  touch_locked terminal = record {
    at = λ db.
        (touch_answer (get_idempotent_result db c.from_agent_slug c.client_request_id) terminal).at
          db;
  }

SettlesTo-trans :
    (db u : Db) (out : Outcome) → Aged db.threads u.threads → SettlesTo u out → SettlesTo db out
SettlesTo-trans db u none a h = h
SettlesTo-trans db u (some (posts, v)) a h = (h.0, Aged-trans db.threads u.threads v.threads a h.1)

-- A notification that ends a thread and is answered without an error, in a store where no live thread
-- stands under a terminal parent and the thread ids are not empty and have no white space around them:
-- the cascade ends within its fuel, again no live thread stands under a terminal parent, and every
-- thread is still there, with its id and parent, none of them back to life.
pub notification_settles :
    (config : Config) (event_id : Text) (now : ℕ) (is_other : ℕ → Bool)
    (input : NotificationRequestInput) (c : NotificationContext) (response : Response) (db : Db)
    → build_notification_request is_other input ≡ ok c
    → is_terminal c.status ≡ true
    → CleanIds db.threads
    → exists_row (is_orphan db) db.threads ≡ false
    → (send_notification config event_id now is_other input db).reply ≡ ok response
    → SettlesTo db (send_notification config event_id now is_other input db).outcome
unfolding send_notification
notification_settles config event_id now is_other input c response db built terminal clean settled
      answered =
    rw built (
      by_reply (send_notification_with_lock_context config event_id now c db)
        ((touch_locked config event_id now c terminal).at db) (replied built))
  where
    replied :
        build_notification_request is_other input ≡ ok c
        → (finish config event_id now c
            (send_notification_with_lock_context config event_id now c db)).reply
          ≡ ok response
    replied b = rw b at answered

    by_reply :
        (out : Result Response × Db)
        → Touched c.thread_id db.threads out.1.threads
        → (finish config event_id now c out).reply ≡ ok response
        → SettlesTo db (finish config event_id now c out).outcome
    by_reply (err e, u) touched h = absurd (cc h)
    by_reply (ok r, u) touched h =
        let aged = Touched-Aged c.thread_id db.threads u.threads touched in
        SettlesTo-trans db u (after_notification config event_id now c u) aged (
          cascade_settles config event_id now c u terminal
            (CleanIds-Aged db.threads u.threads aged clean)
            (Touched-orphans c.thread_id db u touched settled))
