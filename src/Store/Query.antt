-- ===== src/Store/Query.antt =====
-- store_thread_query.py
use orchestra_threads.Prelude.{
  ℕ, Bool, true, false, ◌&&◌, ◌||◌, not, Option, none, some, List, map, length, take, max, leb, ltb,
  eqb, coalesce, if◌then◌else◌,
}
use orchestra_threads.Text.{Text, ◌==◌}
use orchestra_threads.Common.{is_terminal, in_progress}
use orchestra_threads.Common
use orchestra_threads.Sql.{select, fetchrow, order_by, first_row}
use orchestra_threads.Rows.{Db, Thread, ThreadEvent}

abbrev pub has_id : Text → Thread → Bool
has_id thread_id t = t.thread_id == thread_id

abbrev pub event_of : Text → ThreadEvent → Bool
event_of thread_id e = e.thread_id == thread_id

abbrev pub has_parent : Text → Thread → Bool
has_parent thread_id t = elim t.parent_thread_id [ none ↦ false | some p ↦ p == thread_id ]

-- status NOT IN ('done', 'closed')
abbrev pub is_live : Thread → Bool
is_live t = not (is_terminal t.status)

-- COALESCE(last_activity_at, updated_at, created_at); `updated_at` is never NULL.
abbrev pub activity : Thread → ℕ
activity t = coalesce t.last_activity_at t.updated_at

-- A row of THREAD_WITH_SUMMARY_SELECT.
pub record ThreadWithSummary : Type 0 where
  pub thread : Thread
  pub event_count : ℕ
  pub pending_delivery_count : ℕ
  pub child_thread_count : ℕ
  pub last_event : Option ThreadEvent

unfoldable pub get_thread : Db → Text → Option Thread
get_thread db thread_id = fetchrow (has_id thread_id) db.threads

-- ORDER BY sequence_no DESC LIMIT 1
unfoldable pub get_latest_thread_event : Db → Text → Option ThreadEvent
get_latest_thread_event db thread_id = first_row (
    order_by (λ x y. leb y.sequence_no x.sequence_no)
      (select (event_of thread_id) db.thread_events))

unfoldable pub with_summary : Db → Thread → ThreadWithSummary
unfolding get_latest_thread_event
with_summary db t = record {
  thread = t;
  event_count = length (select (event_of t.thread_id) db.thread_events);
  pending_delivery_count =
      length (select (λ e. e.pending_delivery) (select (event_of t.thread_id) db.thread_events));
  child_thread_count = length (select (has_parent t.thread_id) db.threads);
  last_event = get_latest_thread_event db t.thread_id;
}

-- Live threads first, then the last activity DESC, then `created_at` DESC.
abbrev pub more_recent : Thread → Thread → Bool
more_recent x y =
    if is_live x
    then if is_live y
      then ltb (activity y) (activity x)
        || (eqb (activity y) (activity x) && leb y.created_at x.created_at)
      else true
    else if is_live y
    then false
    else ltb (activity y) (activity x)
      || (eqb (activity y) (activity x) && leb y.created_at x.created_at)

unfoldable pub list_threads : Db → Bool → ℕ → List ThreadWithSummary
unfolding with_summary
list_threads db active_only limit =
    let shown = if active_only then select is_live db.threads else db.threads in
    map (with_summary db) (take (max 1 limit) (order_by more_recent shown))

-- The root first, then by `created_at` ASC.
abbrev pub root_then_oldest : Thread → Thread → Bool
root_then_oldest x y =
    if x.thread_id == x.root_thread_id
    then if y.thread_id == y.root_thread_id then leb x.created_at y.created_at else true
    else if y.thread_id == y.root_thread_id
    then false
    else leb x.created_at y.created_at

unfoldable pub list_threads_by_root : Db → Text → List ThreadWithSummary
unfolding with_summary
list_threads_by_root db root_thread_id =
    map (with_summary db)
      (order_by root_then_oldest (select (λ t. t.root_thread_id == root_thread_id) db.threads))

unfoldable pub list_child_threads : Db → Text → List Thread
list_child_threads db parent_thread_id =
    order_by (λ x y. leb x.created_at y.created_at)
      (select (has_parent parent_thread_id) db.threads)

unfoldable pub list_thread_events : Db → Text → ℕ → List ThreadEvent
list_thread_events db thread_id limit = take (max 1 limit) (
    order_by (λ x y. leb x.sequence_no y.sequence_no)
      (select (event_of thread_id) db.thread_events))

abbrev pub busy_with : Text → Thread → Bool
busy_with agent_slug t =
    (elim t.status [ Common.Status.in_progress ↦ true | _ ↦ false ])
    && (t.owner_agent_slug == agent_slug
        || t.participant_a_agent_slug == agent_slug
        || t.participant_b_agent_slug == agent_slug)

unfoldable pub get_agent_busy_thread : Db → Text → Option Thread
get_agent_busy_thread db agent_slug =
    first_row
      (order_by (λ x y. leb (activity y) (activity x)) (select (busy_with agent_slug) db.threads))
