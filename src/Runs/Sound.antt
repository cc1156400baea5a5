-- ===== src/Runs/Sound.antt =====
-- The invariants together, and that every reachable store has them.
use orchestra_threads.Prelude.{◌≡◌, refl, some}
use orchestra_threads.Text.{Text}
use orchestra_threads.Common.{is_terminal}
use orchestra_threads.Rows.{Db, Thread, empty_db}
use orchestra_threads.Store.Query.{get_thread}
use orchestra_threads.Service.Config.{Config}
use orchestra_threads.Change.{Change, Changes, here, next}
use orchestra_threads.Change.Steps.{Run, Run-Changes}
use orchestra_threads.Invariant.Numbering.{IsNumbered, Change-IsNumbered}
use orchestra_threads.Invariant.Keys.{IsKeyed, Change-IsKeyed}
use orchestra_threads.Invariant.Final.{EndsAs, SameEnd-refl, Change-EndsAs, IsTimed, Change-IsTimed}
use orchestra_threads.Invariant.Quiet.{IsQuiet, Change-IsQuiet}
use orchestra_threads.Prelude.{Option, none, ◌∙◌, ap, true}

pub record IsSound (db : Db) : Type 0 where
  pub numbered : IsNumbered db
  pub keyed : IsKeyed db
  pub timed : IsTimed db
  pub quiet : IsQuiet db

empty-IsSound : IsSound empty_db
empty-IsSound = record {
  numbered = record { numbers = tt; owned = tt };
  keyed = tt;
  timed = tt;
  quiet = tt;
}

Change-IsSound : {db u : Db} → Change db u → IsSound db → IsSound u
Change-IsSound c h = record {
  numbered = Change-IsNumbered c h.numbered;
  keyed = Change-IsKeyed c h.keyed;
  timed = Change-IsTimed c h.keyed h.timed;
  quiet = Change-IsQuiet c h.quiet;
}

pub Changes-IsSound : {db u : Db} → Changes db u → IsSound db → IsSound u
Changes-IsSound here h = h
Changes-IsSound (next k c) h = Change-IsSound c (Changes-IsSound k h)

-- Every store that is reached from the empty one.
pub Run-IsSound : (config : Config) {db : Db} → Run config empty_db db → IsSound db
Run-IsSound config run = Changes-IsSound (Run-Changes config run) empty-IsSound

EndsAs-next :
    (t : Thread) (thread_id : Text) {u v : Db}
    → Change u v
    → is_terminal t.status ≡ true
    → (o : Option Thread) → get_thread u thread_id ≡ o
    → EndsAs t o
    → EndsAs t (get_thread v thread_id)
EndsAs-next t thread_id c k none e h = absurd h
EndsAs-next t thread_id {u} {v} c k (some x) e h =
    trans (get_thread v thread_id) (Change-EndsAs thread_id x c e (ap is_terminal h.status ∙ k))
  where
    trans : (o : Option Thread) → EndsAs x o → EndsAs t o
    trans none k = k
    trans (some y) k = record {
      status = k.status ∙ h.status;
      terminal_at = k.terminal_at ∙ h.terminal_at;
      number = k.number ∙ h.number;
    }

pub Changes-EndsAs :
    {db u : Db} (thread_id : Text) (t : Thread)
    → Changes db u
    → get_thread db thread_id ≡ some t
    → is_terminal t.status ≡ true
    → EndsAs t (get_thread u thread_id)
Changes-EndsAs thread_id t here found k = rw found (SameEnd-refl t)
Changes-EndsAs {db} thread_id t (next h c) found k =
    EndsAs-next t thread_id c k _ refl (Changes-EndsAs thread_id t h found k)
