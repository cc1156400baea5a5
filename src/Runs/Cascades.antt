-- ===== src/Runs/Cascades.antt =====
-- The cascade of service/flows/notification_flow.py as a run of locked steps.
use orchestra_threads.Prelude.{
  ℕ, zero, suc, refl, ◌||◌, none, some, List, [], ◌∷◌, inl, inr, Bool-cases,
}
use orchestra_threads.Text.{Text, strip, is_empty}
use orchestra_threads.Common.{is_terminal}
use orchestra_threads.Rows.{Db, Thread}
use orchestra_threads.Store.Query.{list_child_threads}
use orchestra_threads.Service.Config.{Config}
use orchestra_threads.Service.Stop.{StopPost}
use orchestra_threads.Service.Cascade.{
  Outcome, then_more, and_then, close_child_thread, close_child_threads, cascade_close_children,
}
use orchestra_threads.Change.Steps.{Step, Run, start, then_step}
use orchestra_threads.Change.Steps

pub Run-trans : {config : Config} {db u v : Db} → Run config db u → Run config u v → Run config db v
Run-trans h start = h
Run-trans h (then_step k s) = then_step (Run-trans h k) s

module _ (config : Config) where
  -- The store that an outcome leaves, if it is not out of fuel, is reached by a run.
  abbrev pub RunsTo : Db → Outcome → Type 0
  RunsTo db none = Unit
  RunsTo db (some (posts, u)) = Run config db u

  pub then_more-RunsTo :
      (db : Db) (posts : List StopPost) (out : Outcome)
      → RunsTo db out
      → RunsTo db (then_more posts out)
  then_more-RunsTo db posts none h = tt
  then_more-RunsTo db posts (some (more, u)) h = h

  pub RunsTo-trans : (db u : Db) (out : Outcome) → Run config db u → RunsTo u out → RunsTo db out
  RunsTo-trans db u none h k = tt
  RunsTo-trans db u (some (posts, v)) h k = Run-trans h k

  and_then-RunsTo :
      (db : Db) (out : Outcome) (f : Db → Outcome)
      → RunsTo db out
      → ((u : Db) → RunsTo u (f u))
      → RunsTo db (and_then out f)
  and_then-RunsTo db none f h k = tt
  and_then-RunsTo db (some (posts, u)) f h k =
      then_more-RunsTo db posts (f u) (RunsTo-trans db u (f u) h (k u))

  close_children-RunsTo :
      (now : ℕ) (recurse : Text → Text → Db → Outcome)
      → ((i reason : Text) (u : Db) → RunsTo u (recurse i reason u))
      → (parent reason : Text) (cs : List Thread) (db : Db)
      → RunsTo db (close_child_threads config now recurse parent reason cs db)
  unfolding close_child_threads close_child_thread
  close_children-RunsTo now recurse h parent reason [] db = start
  close_children-RunsTo now recurse h parent reason (c ∷ rest) db =
      and_then-RunsTo db (close_child_thread config now recurse parent reason c db) _
        (elim (Bool-cases (is_empty (strip c.thread_id) || is_terminal c.status)) [
          | inl e ↦ rw e start
          | inr e ↦ rw e (
              then_more-RunsTo db _ _ (
                RunsTo-trans db _ _
                  (then_step start (Steps.Step.closes_child (strip c.thread_id) now refl))
                  (h _ _ _)))
        ])
        (close_children-RunsTo now recurse h parent reason rest)

  pub cascade-RunsTo :
      (now fuel : ℕ) (i reason : Text) (db : Db)
      → RunsTo db (cascade_close_children config now fuel i reason db)
  unfolding cascade_close_children
  cascade-RunsTo now zero i reason db = tt
  cascade-RunsTo now (suc fuel) i reason db =
      close_children-RunsTo now _ (cascade-RunsTo now fuel) i reason (list_child_threads db i) db
