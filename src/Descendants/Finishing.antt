-- ===== src/Descendants/Finishing.antt =====
-- Every notification ends within its fuel, whatever orphans the store has and whatever is answered.
use orchestra_threads.Prelude.{
  ℕ, ◌≡◌, refl, true, Bool, [], ◌∷◌, some, none, List, Result, ok, err, ◌++◌, inl, inr, Bool-cases,
  All, All-map, arith,
}
use orchestra_threads.Text.{Text, lit}
use orchestra_threads.Common.{status_text, is_terminal}
use orchestra_threads.Rows.{Db, Thread, Response}
use orchestra_threads.Requests.{
  NotificationContext, NotificationRequestInput, build_notification_request,
}
use orchestra_threads.Service.Config.{Config}
use orchestra_threads.Service.Stop.{StopPost}
use orchestra_threads.Service.Cascade.{Outcome, then_more}
use orchestra_threads.Service.Notification.{
  send_notification, send_notification_with_lock_context, send_built, after_notification,
  cascade_notification_close, cascade_fuel, finish,
}
use orchestra_threads.Descendants.{CleanIds, SettledBut, Allowed, is_orphan}
use orchestra_threads.Descendants.Aging.{live_count-le, CleanIds-Aged}
use orchestra_threads.Descendants.Touching.{Touched, Touched-Aged}
use orchestra_threads.Descendants.Ending.{Ends, cascade-Ends}
use orchestra_threads.Descendants.Notifying.{touch_locked}

-- There is an outcome: the fuel was enough.
abbrev pub Finishes : Outcome → Type 0
Finishes out = (posts : List StopPost) × (u : Db) × (out ≡ some (posts, u))

-- Any thread may be an orphan.
abbrev anybody : Allowed
anybody thread_id parent_thread_id = true

anybody-SettledBut : (db : Db) → SettledBut anybody db
anybody-SettledBut db = all db.threads
  where
    all : (xs : List Thread) → All (λ u. is_orphan db u ≡ true → true ≡ true) xs
    all [] = tt
    all (x ∷ xs) = (λ h. refl, all xs)

Ends-Finishes :
    (db : Db) (posts : List StopPost) (out : Outcome)
    → Ends anybody db out
    → Finishes (then_more posts out)
Ends-Finishes db posts none h = elim h [ ]
Ends-Finishes db posts (some (more, u)) h = (posts ++ more, u, refl)

module _ (config : Config) (event_id : Text) (now : ℕ) where
  after_notification-Finishes :
      (c : NotificationContext) (db : Db)
      → (is_terminal c.status ≡ true → CleanIds db.threads)
      → Finishes (after_notification config event_id now c db)
  unfolding after_notification cascade_notification_close
  after_notification-Finishes c db clean = elim (Bool-cases (is_terminal c.status)) [
    | inr e ↦ rw e (_, db, refl)
    | inl e ↦ rw e (
        Ends-Finishes db _ _ (
          cascade-Ends config now (cascade_fuel config event_id now db) c.thread_id
            (lit "parent thread "
              ++ (c.thread_id ++ (lit " reached terminal state " ++ status_text c.status)))
            db anybody (clean e)
            (All-map _ _ db.threads (λ t h orphan. ground arith) (anybody-SettledBut db))
            (omega (arith, live_count-le db.threads))))
  ]

  pub send_notification-Finishes :
      (is_other : ℕ → Bool) (input : NotificationRequestInput) (db : Db)
      → CleanIds db.threads
      → Finishes (send_notification config event_id now is_other input db).outcome
  unfolding send_notification
  send_notification-Finishes is_other input db clean =
      by_request (build_notification_request is_other input)
    where
      by_reply :
          (c : NotificationContext) (out : Result Response × Db)
          → (is_terminal c.status ≡ true → Touched c.thread_id db.threads out.1.threads)
          → Finishes (finish config event_id now c out).outcome
      by_reply c (err e, u) touched = ([], u, refl)
      by_reply c (ok r, u) touched = after_notification-Finishes c u λ terminal.
          CleanIds-Aged db.threads u.threads
            (Touched-Aged c.thread_id db.threads u.threads (touched terminal)) clean

      by_request :
          (r : Result NotificationContext) → Finishes (send_built config event_id now r db).outcome
      by_request (err e) = ([], db, refl)
      by_request (ok c) =
          by_reply c (send_notification_with_lock_context config event_id now c db)
            λ terminal. (touch_locked config event_id now c terminal).at db
