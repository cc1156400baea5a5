-- ===== src/Descendants/Notified.antt =====
-- The cascade that follows a notification.
use orchestra_threads.Prelude.{
  ℕ, ◌≡◌, refl, true, false, ◌&&◌, not, none, some, List, ◌++◌, ◌∷◌, [], All, All-map, arith,
}
use orchestra_threads.Text.{Text, lit}
use orchestra_threads.Common.{is_terminal, status_text}
use orchestra_threads.Sql.{exists_row}
use orchestra_threads.Sql.Laws.{exists_row-All-false}
use orchestra_threads.Rows.{Db, Thread}
use orchestra_threads.Requests.{NotificationContext}
use orchestra_threads.Service.Config.{Config}
use orchestra_threads.Service.Stop.{StopPost}
use orchestra_threads.Service.Cascade.{Outcome, then_more}
use orchestra_threads.Service.Notification.{
  after_notification, cascade_notification_close, cascade_fuel,
}
use orchestra_threads.Descendants.{is_orphan, CleanIds, nobody}
use orchestra_threads.Descendants.Aging.{Aged, live_count-le}
use orchestra_threads.Descendants.Cascade.{under}
use orchestra_threads.Descendants.Ending.{Ends, cascade-Ends}

-- The operation ends, no live thread stands under a terminal parent any more, and the threads are
-- those of before, none of them back to life.
abbrev pub SettlesTo : Db → Outcome → Type 0
SettlesTo db none = ⊥
SettlesTo db (some (posts, u)) =
    (exists_row (is_orphan u) u.threads ≡ false) × Aged db.threads u.threads

no_orphan :
    (u : Db) (xs : List Thread)
    → All (λ t. is_orphan u t ≡ true → false ≡ true) xs
    → exists_row (is_orphan u) xs ≡ false
unfolding exists_row
no_orphan u [] h = refl
no_orphan u (x ∷ xs) h = ground (arith, h.0, no_orphan u xs h.1)

Ends-SettlesTo :
    (db : Db) (posts : List StopPost) (out : Outcome)
    → Ends nobody db out
    → SettlesTo db (then_more posts out)
Ends-SettlesTo db posts none h = h
Ends-SettlesTo db posts (some (more, u)) h = (no_orphan u u.threads h.settled, h.aged)

-- After a terminal notification on a thread, in a store whose only live threads under a terminal parent
-- are children of that thread and whose thread ids are not empty and have no white space around
-- them, the cascade ends within its fuel; then no live thread stands under a terminal parent, and
-- every thread is still there, with its id and parent, none of them back to life.
pub cascade_settles :
    (config : Config) (event_id : Text) (now : ℕ) (c : NotificationContext) (db : Db)
    → is_terminal c.status ≡ true
    → CleanIds db.threads
    → exists_row
        (λ t. is_orphan db t && not (under c.thread_id t.thread_id t.parent_thread_id))
        db.threads
      ≡ false
    → SettlesTo db (after_notification config event_id now c db)
unfolding after_notification cascade_notification_close
cascade_settles config event_id now c db terminal clean only = rw terminal (
    Ends-SettlesTo db _ _ (
      cascade-Ends config now (cascade_fuel config event_id now db) c.thread_id
        (lit "parent thread "
          ++ (c.thread_id ++ (lit " reached terminal state " ++ status_text c.status)))
        db nobody clean
        (All-map _ _ db.threads (λ t h orphan. ground (arith, h, orphan))
          (exists_row-All-false _ db.threads only))
        (omega (arith, live_count-le db.threads))))
