-- ===== src/Store/Creation.antt =====
-- store_thread_creation.py
use orchestra_threads.Prelude.{
  ℕ, Bool, true, false, ◌&&◌, ◌||◌, not, Option, none, some, [], ◌∷◌, ◌++◌, Error, runtime_error,
  foreign_key_violation, Exec, pure, raise, leb, ltb, eqb, is_some, if◌then◌else◌,
}
use orchestra_threads.Text.{Text, lit, ◌==◌}
use orchestra_threads.Common.{opened, normalize_participants}
use orchestra_threads.Sql.{select, exists_row, order_by, first_row}
use orchestra_threads.Rows.{Db, Thread}
use orchestra_threads.Store.Query.{has_id, has_parent, is_live}

pub record RootThreadRequest : Type 0 where
  pub thread_id : Text
  pub owner_agent_slug : Text
  pub from_agent_slug : Text
  pub to_agent_slug : Text

pub record ChildThreadRequest : Type 0 where
  pub thread_id : Text
  pub root_thread_id : Text
  pub parent_thread_id : Text
  pub owner_agent_slug : Text
  pub from_agent_slug : Text
  pub to_agent_slug : Text

abbrev pub has_participants : Text → Text → Thread → Bool
has_participants a b t = t.participant_a_agent_slug == a && t.participant_b_agent_slug == b

abbrev pub is_root : Thread → Bool
is_root t = not (is_some t.parent_thread_id)

-- ORDER BY updated_at DESC, created_at DESC
abbrev pub updated_later : Thread → Thread → Bool
updated_later x y =
    ltb y.updated_at x.updated_at
    || (eqb y.updated_at x.updated_at && leb y.created_at x.created_at)

-- The WHERE of OPEN_THREADS_BY_PAIR_SQL and of OPEN_CHILD_THREADS_BY_PAIR_SQL.
abbrev pub is_open_root : Text → Text → Thread → Bool
is_open_root a b t = is_root t && (has_participants a b t && is_live t)

abbrev pub is_open_child : Text → Text → Text → Thread → Bool
is_open_child parent a b t = has_parent parent t && (has_participants a b t && is_live t)

unfoldable pub open_root_by_pair : Db → Text → Text → Option Thread
open_root_by_pair db a b = first_row (order_by updated_later (select (is_open_root a b) db.threads))

unfoldable pub open_child_by_pair : Db → Text → Text → Text → Option Thread
open_child_by_pair db parent a b =
    first_row (order_by updated_later (select (is_open_child parent a b) db.threads))

-- The row of both INSERTs.
abbrev pub new_thread : Text → Text → Option Text → Text → Text → Text → ℕ → Thread
new_thread thread_id root_thread_id parent_thread_id owner a b now = record {
  thread_id = thread_id;
  root_thread_id = root_thread_id;
  parent_thread_id = parent_thread_id;
  owner_agent_slug = owner;
  participant_a_agent_slug = a;
  participant_b_agent_slug = b;
  status = opened;
  last_sequence_no = 0;
  last_message_sender_agent_slug = none;
  last_activity_at = none;
  last_inactivity_event_at = none;
  created_at = now;
  updated_at = now;
  terminal_at = none;
}

-- The unique keys that ON CONFLICT DO NOTHING looks at: the primary key, and the partial index on
-- the live root threads of a pair, or on the live children of one parent with that pair.
unfoldable pub conflicts : Db → Thread → (Thread → Bool) → Bool
conflicts db t same_pair = exists_row (λ u. u.thread_id == t.thread_id || same_pair u) db.threads

abbrev pub found_or : Error → Option Thread → Exec Db (Thread × Bool)
found_or e none = raise e
found_or e (some t) = pure (t, false)

unfoldable pub find_root_by_participants : Text → Text → Exec Db (Thread × Bool)
find_root_by_participants a b db =
    found_or (runtime_error (lit "Thread upsert conflict without retrievable root thread"))
      (open_root_by_pair db a b) db

unfoldable pub find_child_by_participants : Text → Text → Text → Exec Db (Thread × Bool)
find_child_by_participants parent a b db =
    found_or (runtime_error (lit "Thread upsert conflict without retrievable child thread"))
      (open_child_by_pair db parent a b) db

unfoldable pub insert_root : RootThreadRequest → Text → Text → ℕ → Exec Db (Thread × Bool)
unfolding conflicts find_root_by_participants
insert_root request a b now db =
    let t = new_thread request.thread_id request.thread_id none request.owner_agent_slug a b now in
    if conflicts db t (is_open_root a b)
    then find_root_by_participants a b db
    else pure (t, true) (record db { threads = db.threads ++ t ∷ [] })

unfoldable pub get_or_create_root_thread : RootThreadRequest → ℕ → Exec Db (Thread × Bool)
unfolding insert_root
get_or_create_root_thread request now db =
    let (a, b) = normalize_participants request.from_agent_slug request.to_agent_slug in
    elim (open_root_by_pair db a b) [
      | some existing ↦ pure (existing, false) db
      | none ↦ insert_root request a b now db
    ]

-- `parent_thread_id` REFERENCES threads(thread_id).
unfoldable pub insert_child : ChildThreadRequest → Text → Text → ℕ → Exec Db (Thread × Bool)
unfolding conflicts find_child_by_participants
insert_child request a b now db =
    let t =
      new_thread request.thread_id request.root_thread_id (some request.parent_thread_id)
        request.owner_agent_slug a b now in
    if conflicts db t (is_open_child request.parent_thread_id a b)
    then find_child_by_participants request.parent_thread_id a b db
    else if exists_row (has_id request.parent_thread_id) db.threads
    then pure (t, true) (record db { threads = db.threads ++ t ∷ [] })
    else raise foreign_key_violation db

unfoldable pub get_or_create_child_thread : ChildThreadRequest → ℕ → Exec Db (Thread × Bool)
unfolding insert_child
get_or_create_child_thread request now db =
    let (a, b) = normalize_participants request.from_agent_slug request.to_agent_slug in
    elim (open_child_by_pair db request.parent_thread_id a b) [
      | some existing ↦ pure (existing, false) db
      | none ↦ insert_child request a b now db
    ]
