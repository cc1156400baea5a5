-- ===== src/Descendants/Cascade.antt =====
-- The cascade ends, and leaves no live thread under the thread that it was called for.
use orchestra_threads.Prelude.{
  ℕ, ◌≡◌, refl, ap, ◌∙◌, sym, subst, Bool, true, false, ◌&&◌, ◌||◌, Option, none, some, List, [],
  ◌∷◌, arith, inl, inr, Option-cases, All, All-map, All-both, leb, if◌then◌else◌,
}
use mathlib.Core.Option
use orchestra_threads.Text.{Text, ◌==◌, eq_iff, eq_comm, eq_refl}
use orchestra_threads.Common.{closed, is_terminal}
use orchestra_threads.Sql.{exists_row, fetchrow, select, order_by, insert_row}
use orchestra_threads.Sql.Laws.{fetchrow-update, fetchrow-true, All-update_to}
use orchestra_threads.Rows.{Db, Thread}
use orchestra_threads.Store.Query.{has_id, has_parent, is_live, get_thread, list_child_threads}
use orchestra_threads.Store.Notifications.{terminated, update_thread_terminal_status}
use orchestra_threads.Store.Delivery.{cancel_pending_events_for_thread}
use orchestra_threads.Service.Config.{Config}
use orchestra_threads.Service.Cascade.{close_thread}
use orchestra_threads.Descendants.{
  Allowed, child_of, ended_found, parent_ended, is_orphan, SettledBut,
}
use orchestra_threads.Descendants.Aging.{closing}

-- The children that the loop has still to close.
abbrev pub waiting : List Thread → Allowed
waiting cs i p = exists_row (λ c. c.thread_id == i && is_live c) cs

abbrev pub under : Text → Allowed
under thread_id i p = child_of thread_id p

abbrev pub or_allowed : Allowed → Allowed → Allowed
or_allowed f g i p = f i p || g i p

pub SettledBut-mono :
    (f g : Allowed) (db : Db)
    → ((i : Text) (p : Option Text) → f i p ≡ true → g i p ≡ true)
    → SettledBut f db
    → SettledBut g db
SettledBut-mono f g db imp h =
    All-map _ _ db.threads (λ u k o. imp u.thread_id u.parent_thread_id (k o)) h

-- The effect of `close_thread` on the threads.
pub threads-close :
    (config : Config) (now : ℕ) (i : Text) (db : Db)
    → (close_thread config now i db).threads ≡ closing i now db.threads
unfolding close_thread closing update_thread_terminal_status cancel_pending_events_for_thread
threads-close config now i db = refl

ended_after :
    (i p : Text) (now : ℕ) (x : Thread)
    → has_id p x ≡ true
    → ended_found (some (if has_id i x && is_live x then terminated closed now x else x)) ≡ true
    → (is_terminal x.status || p == i) ≡ true
ended_after i p now x found h =
    ground (arith, eq_iff x.thread_id i, eq_iff x.thread_id p, eq_iff p i)

-- A parent that is terminal once `i` is closed was terminal, or is `i`.
parent_ended-close :
    (config : Config) (now : ℕ) (i : Text) (db : Db) (p : Option Text)
    → parent_ended (close_thread config now i db) p ≡ true
    → (parent_ended db p || child_of i p) ≡ true
unfolding parent_ended get_thread
parent_ended-close config now i db none h = absurd (cc)
parent_ended-close config now i db (some p) h =
    let row : fetchrow (has_id p) (closing i now db.threads)
        ≡ Option.map (λ x. if has_id i x && is_live x then terminated closed now x else x)
            (fetchrow (has_id p) db.threads) =
      unfold closing terminated in
      fetchrow-update (has_id p) (λ t. has_id i t && is_live t) (terminated closed now) (λ x. refl)
        db.threads in
    elim (Option-cases (fetchrow (has_id p) db.threads)) [
      | inl e ↦ absurd (cc (e, row, h, threads-close config now i db))
      | inr (x, e) ↦ rw e (
          ended_after i p now x (fetchrow-true (has_id p) db.threads e) (
            ap ended_found (
              sym (
                ap (fetchrow (has_id p)) (threads-close config now i db)
                ∙ row
                ∙ ap (Option.map _) e))
            ∙ h))
    ]

-- Closing a child makes its own children the orphans, and no other thread.
pub close-SettledBut :
    (config : Config) (now : ℕ) (c : Thread) (rest : List Thread) (allowed : Allowed) (db : Db)
    → is_live c ≡ true
    → SettledBut (or_allowed (waiting (c ∷ rest)) allowed) db
    → SettledBut
        (or_allowed (under c.thread_id) (or_allowed (waiting rest) allowed))
        (close_thread config now c.thread_id db)
unfolding exists_row
close-SettledBut config now c rest allowed db live h =
    let u : Db = close_thread config now c.thread_id db in
    subst
      (All (λ x.
        is_orphan u x ≡ true
        → or_allowed (under c.thread_id) (or_allowed (waiting rest) allowed) x.thread_id
            x.parent_thread_id
          ≡ true))
      (sym (threads-close config now c.thread_id db))
      (unfold closing terminated in
        All-update_to _ _ (λ t. has_id c.thread_id t && is_live t) (terminated closed now)
          (λ x hit k o. absurd (cc))
          (λ x miss k o. ground (
            arith,
            miss,
            o,
            k,
            live,
            eq_comm c.thread_id x.thread_id,
            parent_ended-close config now c.thread_id db x.parent_thread_id,
          ))
          db.threads h)

waiting-insert_row :
    (before : Thread → Thread → Bool) (i : Text) (p : Option Text) (x : Thread) (xs : List Thread)
    → waiting (insert_row before x xs) i p ≡ waiting (x ∷ xs) i p
unfolding insert_row exists_row
waiting-insert_row before i p x [] = refl
waiting-insert_row before i p x (y ∷ ys) = ground (arith, waiting-insert_row before i p x ys)

-- A row stands among the children of its parent that the cascade reads.
waiting-order_by :
    (before : Thread → Thread → Bool) (i : Text) (p : Option Text) (xs : List Thread)
    → waiting (order_by before xs) i p ≡ waiting xs i p
unfolding order_by exists_row
waiting-order_by before i p [] = refl
waiting-order_by before i p (x ∷ xs) =
    waiting-insert_row before i p x (order_by before xs)
    ∙ ap (λ b. (x.thread_id == i && is_live x) || b) (waiting-order_by before i p xs)

waiting-select :
    (q : Thread → Bool) (xs : List Thread)
    → All
        (λ u.
          q u ≡ true
          → is_live u ≡ true
          → waiting (select q xs) u.thread_id u.parent_thread_id ≡ true)
        xs
unfolding select exists_row
waiting-select q [] = tt
waiting-select q (x ∷ xs) = (
  (λ k live. ground (arith, eq_refl x.thread_id)),
  All-map _ _ xs (λ u h k live. ground (arith, h k live)) (waiting-select q xs),
)

pub start-SettledBut :
    (thread_id : Text) (allowed : Allowed) (db : Db)
    → SettledBut (or_allowed (under thread_id) allowed) db
    → SettledBut (or_allowed (waiting (list_child_threads db thread_id)) allowed) db
unfolding list_child_threads
start-SettledBut thread_id allowed db h =
    All-map _ _ db.threads
      (λ u (k, q) o. ground (
        arith,
        o,
        k o,
        q,
        waiting-order_by (λ x y. leb x.created_at y.created_at) u.thread_id u.parent_thread_id
            (select (has_parent thread_id) db.threads),
        same_test thread_id u.parent_thread_id,
      ))
      (All-both _ _ db.threads h (waiting-select (has_parent thread_id) db.threads))
  where
    same_test :
        (thread_id : Text) (p : Option Text)
        → (elim p [ none ↦ false | some q ↦ q == thread_id ]) ≡ child_of thread_id p
    same_test thread_id none = refl
    same_test thread_id (some q) = refl
