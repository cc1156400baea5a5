-- ===== src/Descendants/Ending.antt =====
-- The cascade ends with enough fuel, whatever the shape of the tree, and leaves no orphan behind.
use orchestra_threads.Prelude.{
  ℕ, zero, suc, ◌≤◌, ◌<◌, ◌≡◌, refl, ap, true, false, not, none, some, List, [], ◌∷◌, ◌++◌, arith,
  inl, inr, Bool-cases, All, All-map,
}
use orchestra_threads.Text.{Text, lit, eq_refl, non_empty, is_empty}
use orchestra_threads.Common.{is_terminal}
use orchestra_threads.Sql.{exists_row}
use orchestra_threads.Sql.Laws.{All-select, All-order_by}
use orchestra_threads.Rows.{Db, Thread}
use orchestra_threads.Store.Query.{is_live, list_child_threads}
use orchestra_threads.Service.Config.{Config}
use orchestra_threads.Service.Stop.{StopPost}
use orchestra_threads.Service.Cascade.{
  Outcome, then_more, and_then, close_thread, close_child_thread, close_child_threads,
  cascade_close_children, stop_all, child_participants,
}
use orchestra_threads.Descendants.{Allowed, SettledBut, IsClean, CleanIds, live_count}
use orchestra_threads.Descendants.Aging.{
  Aged, Aged-refl, Aged-trans, Aged-closing, closing-lt, CleanIds-Aged, was_live,
}
use orchestra_threads.Descendants.Cascade.{
  waiting, under, or_allowed, SettledBut-mono, threads-close, close-SettledBut, start-SettledBut,
}

-- The run ends; of the orphans only those are left that are allowed, and no thread has come or gone
-- or come back to life.
pub record EndsAt (allowed : Allowed) (db u : Db) : Type 0 where
  pub settled : SettledBut allowed u
  pub aged : Aged db.threads u.threads

abbrev pub Ends : Allowed → Db → Outcome → Type 0
Ends allowed db none = ⊥
Ends allowed db (some (posts, u)) = EndsAt allowed db u

then_more-Ends :
    (allowed : Allowed) (db : Db) (posts : List StopPost) (out : Outcome)
    → Ends allowed db out
    → Ends allowed db (then_more posts out)
then_more-Ends allowed db posts none h = h
then_more-Ends allowed db posts (some (more, u)) h = h

Ends-trans :
    (allowed : Allowed) (db u : Db) (out : Outcome)
    → Aged db.threads u.threads
    → Ends allowed u out
    → Ends allowed db out
Ends-trans allowed db u none a h = h
Ends-trans allowed db u (some (posts, v)) a h = record {
  settled = h.settled;
  aged = Aged-trans db.threads u.threads v.threads a h.aged;
}

and_then-Ends :
    (first second : Allowed) (db : Db) (out : Outcome) (f : Db → Outcome)
    → Ends first db out
    → ((u : Db) → EndsAt first db u → Ends second u (f u))
    → Ends second db (and_then out f)
and_then-Ends first second db none f h k = h
and_then-Ends first second db (some (posts, u)) f h k =
    then_more-Ends second db posts (f u) (Ends-trans second db u (f u) h.aged (k u h))

-- A child that the snapshot shows live was live in the store of the snapshot.
abbrev Seen : Db → Thread → Type 0
Seen db c = is_live c ≡ true → exists_row (was_live c.thread_id) db.threads ≡ true

self_seen :
    (xs : List Thread)
    → All (λ c. is_live c ≡ true → exists_row (was_live c.thread_id) xs ≡ true) xs
unfolding exists_row
self_seen [] = tt
self_seen (x ∷ xs) = (
  (λ live. ground (arith, eq_refl x.thread_id)),
  All-map _ _ xs (λ c h live. ground (arith, h live)) (self_seen xs),
)

module _ (config : Config) (now : ℕ) where
  abbrev Recursion : Type 0
  Recursion = Text → Text → Db → Outcome

  -- What the loop needs of the recursive call.
  abbrev Closes : ℕ → Recursion → Type 0
  Closes fuel recurse =
      (thread_id reason : Text) (db : Db) (allowed : Allowed)
      → CleanIds db.threads
      → SettledBut (or_allowed (under thread_id) allowed) db
      → live_count db.threads < fuel
      → Ends allowed db (recurse thread_id reason db)

  live_child :
      (recurse : Recursion) (parent reason : Text) (c : Thread) (db : Db)
      → IsClean c.thread_id
      → is_terminal c.status ≡ false
      → (posts : List StopPost) × (why : Text) × (close_child_thread config now recurse parent
            reason c db
          ≡ then_more posts (recurse c.thread_id why (close_thread config now c.thread_id db)))
  unfolding close_child_thread
  live_child recurse parent reason c db clean live = (
    stop_all config now db (child_participants c)
        (record { thread_id = c.thread_id; parent_thread_id = some parent; reason = reason }),
    lit "ancestor thread " ++ (parent ++ (lit " closed descendant " ++ c.thread_id)),
    rw (clean.0, not_empty c.thread_id clean.1, live) refl,
  )
    where
      not_empty : (i : Text) → non_empty i ≡ true → is_empty i ≡ false
      not_empty [] h = cc
      not_empty (x ∷ i) h = refl

  -- A child that was terminal in the snapshot is passed over.
  dead_child :
      (recurse : Recursion) (parent reason : Text) (c : Thread) (db : Db)
      → is_terminal c.status ≡ true
      → close_child_thread config now recurse parent reason c db ≡ some ([], db)
  unfolding close_child_thread
  dead_child recurse parent reason c db dead = ground arith

  Aged-close : (i : Text) (db : Db) → Aged db.threads (close_thread config now i db).threads
  Aged-close i db = rw (threads-close config now i db) (Aged-closing i now db.threads)

  close_child-Ends :
      (recurse : Recursion) (fuel : ℕ)
      → Closes fuel recurse
      → (parent reason : Text) (c : Thread) (rest : List Thread) (before db : Db)
        (allowed : Allowed)
      → CleanIds before.threads
      → IsClean c.thread_id
      → Seen before c
      → Aged before.threads db.threads
      → live_count before.threads ≤ fuel
      → SettledBut (or_allowed (waiting (c ∷ rest)) allowed) db
      → Ends
          (or_allowed (waiting rest) allowed)
          db
          (close_child_thread config now recurse parent reason c db)
  close_child-Ends recurse fuel closes parent reason c rest before db allowed cleans clean seen aged
        enough settled =
      elim (Bool-cases (is_terminal c.status)) [
        | inl dead ↦ rw (dead_child recurse parent reason c db dead) (record {
          settled =
              SettledBut-mono (or_allowed (waiting (c ∷ rest)) allowed)
                (or_allowed (waiting rest) allowed) db
                (λ i p h. unfold exists_row in ground (arith, h, dead)) settled;
          aged = Aged-refl db.threads;
        })
        | inr live ↦
            let (posts, why, step) = live_child recurse parent reason c db clean live in
            let u : Db = close_thread config now c.thread_id db in
            rw step (
              then_more-Ends _ db posts _ (
                Ends-trans _ db u _ (Aged-close c.thread_id db) (
                  closes c.thread_id why u (or_allowed (waiting rest) allowed)
                    (CleanIds-Aged _ _ (Aged-close c.thread_id db) (CleanIds-Aged _ _ aged cleans))
                    (close-SettledBut config now c rest allowed db (ap not live) settled)
                    (fewer u live))))
      ]
    where
      fewer :
          (u : Db)
          → is_terminal c.status ≡ false
          → live_count (close_thread config now c.thread_id db).threads < fuel
      fewer u live = rw (threads-close config now c.thread_id db) (
          omega
            (arith, closing-lt c.thread_id now before.threads db.threads aged (seen (ap not live))))

  close_children-Ends :
      (recurse : Recursion) (fuel : ℕ)
      → Closes fuel recurse
      → (parent reason : Text) (cs : List Thread) (before db : Db) (allowed : Allowed)
      → CleanIds before.threads
      → All (λ c. IsClean c.thread_id) cs
      → All (Seen before) cs
      → Aged before.threads db.threads
      → live_count before.threads ≤ fuel
      → SettledBut (or_allowed (waiting cs) allowed) db
      → Ends allowed db (close_child_threads config now recurse parent reason cs db)
  unfolding close_child_threads
  close_children-Ends recurse fuel closes parent reason [] before db allowed cleans clean seen aged
        enough settled =
      record {
        settled =
            SettledBut-mono (or_allowed (waiting []) allowed) allowed db
              (λ i p h. unfold exists_row in h) settled;
        aged = Aged-refl db.threads;
      }
  close_children-Ends recurse fuel closes parent reason (c ∷ rest) before db allowed cleans clean
        seen aged enough settled =
      and_then-Ends (or_allowed (waiting rest) allowed) allowed db _ _
        (close_child-Ends recurse fuel closes parent reason c rest before db allowed cleans clean.0
          seen.0 aged enough settled)
        λ u at.
          close_children-Ends recurse fuel closes parent reason rest before u allowed cleans clean.1
            seen.1 (Aged-trans before.threads db.threads u.threads aged at.aged) enough at.settled

  -- With more fuel than live threads the cascade ends.
  pub cascade-Ends : (fuel : ℕ) → Closes fuel (cascade_close_children config now fuel)
  unfolding cascade_close_children
  cascade-Ends zero thread_id reason db allowed clean settled enough = elim enough [ ]
  cascade-Ends (suc fuel) thread_id reason db allowed clean settled enough =
      close_children-Ends (cascade_close_children config now fuel) fuel (cascade-Ends fuel)
        thread_id reason (list_child_threads db thread_id) db db allowed clean
        (unfold list_child_threads in All-order_by _ _ _ (All-select _ _ db.threads clean))
        (unfold list_child_threads in
          All-order_by _ _ _ (All-select _ _ db.threads (self_seen db.threads)))
        (Aged-refl db.threads) (omega arith) (start-SettledBut thread_id allowed db settled)
