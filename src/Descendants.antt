-- ===== src/Descendants.antt =====
-- The tree of threads, and what the cascade of service/flows/notification_flow.py does to it.
pub mod Aging
pub mod Cascade
pub mod Ending
pub mod Touching
pub mod Notified
pub mod Notifying
pub mod Finishing
pub mod Retried
use orchestra_threads.Prelude.{
  ℕ, zero, suc, ◌+◌, ◌≡◌, Bool, true, false, ◌&&◌, ◌||◌, Option, none, some, List, [], ◌∷◌, All,
  not, if◌then◌else◌,
}
use orchestra_threads.Text.{Text, ◌==◌, strip, non_empty}
use orchestra_threads.Common.{is_terminal}
use orchestra_threads.Sql.{exists_row}
use orchestra_threads.Rows.{Db, Thread}
use orchestra_threads.Store.Query.{get_thread, is_live}

abbrev pub ended_found : Option Thread → Bool
ended_found none = false
ended_found (some t) = is_terminal t.status

-- The parent is there, and is terminal.
unfoldable pub parent_ended : Db → Option Text → Bool
parent_ended db none = false
parent_ended db (some p) = ended_found (get_thread db p)

-- A live thread under a terminal parent.
abbrev pub is_orphan : Db → Thread → Bool
is_orphan db u = is_live u && parent_ended db u.parent_thread_id

-- A set of threads, by id and parent.
abbrev pub Allowed : Type 0
Allowed = Text → Option Text → Bool

abbrev pub nobody : Allowed
nobody i p = false

abbrev pub child_of : Text → Option Text → Bool
child_of thread_id none = false
child_of thread_id (some p) = p == thread_id

-- No orphans but the threads that are allowed to be.
abbrev pub SettledBut : Allowed → Db → Type 0
SettledBut allowed db =
    All (λ u. is_orphan db u ≡ true → allowed u.thread_id u.parent_thread_id ≡ true) db.threads

-- No live thread stands under a terminal parent.
abbrev pub Settled : Db → Type 0
Settled = SettledBut nobody

-- An id without white space around it, as `str(uuid.uuid4())` is.
abbrev pub IsClean : Text → Type 0
IsClean i = (strip i ≡ i) × (non_empty i ≡ true)

abbrev pub CleanIds : List Thread → Type 0
CleanIds = All (λ t. IsClean t.thread_id)

abbrev pub live_count : List Thread → ℕ
live_count [] = 0
live_count (x ∷ xs) = if is_live x then suc (live_count xs) else live_count xs
