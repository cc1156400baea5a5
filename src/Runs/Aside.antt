-- ===== src/Runs/Aside.antt =====
-- What the threads and events flows leave alone: the agents, and the responses kept for repeated
-- requests.
use orchestra_threads.Prelude.{
  ℕ, ◌≡◌, refl, ◌∙◌, Bool, true, false, Option, none, some, inl, inr, Bool-cases, Error,
  runtime_error, Result, ok, err, Exec, pure, lift, gets, check, or_raise, ◌>>=◌,
}
use orchestra_threads.Text.{Text, lit}
use orchestra_threads.Common.{normalize_participants}
use orchestra_threads.Sql.{exists_row}
use orchestra_threads.Rows.{Db, Thread, ThreadEvent}
use orchestra_threads.Requests.{MessageRequest}
use orchestra_threads.Store.Query.{has_id}
use orchestra_threads.Store.Creation.{
  RootThreadRequest, ChildThreadRequest, get_or_create_root_thread, get_or_create_child_thread,
  insert_root, insert_child, find_root_by_participants, find_child_by_participants,
  open_root_by_pair, open_child_by_pair, conflicts, found_or, new_thread, is_open_root,
  is_open_child,
}
use orchestra_threads.Store.Events.{AppendEventRequest, append_thread_event}
use orchestra_threads.Service.Config.{Config}
use orchestra_threads.Service.Message.{
  NewIds, resolve_message_thread, resolve_existing_thread, resolve_child_thread,
  build_message_response,
}
use orchestra_threads.Change.Operations.{Appending, refused, done, append_thread_event-Appending}

-- Agents and idempotency keys are left alone.
pub record Aside (db u : Db) : Type 0 where
  pub agents : u.agents ≡ db.agents
  pub keys : u.idempotency_keys ≡ db.idempotency_keys

pub record LeavesAside {A : Type 0} (m : Exec Db A) : Type 0 where
  pub at : (db : Db) → Aside db (m db).1

Aside-refl : (db : Db) → Aside db db
Aside-refl db = record { agents = refl; keys = refl }

module _ {A : Type 0} where
  aside_pure : (a : A) → LeavesAside (pure a)
  aside_pure a = record { at = Aside-refl }

  aside_lift : (r : Result A) → LeavesAside (lift r)
  aside_lift r = record { at = Aside-refl }

  aside_gets : (f : Db → A) → LeavesAside (gets f)
  aside_gets f = record { at = Aside-refl }

  aside_or_raise : (e : Error) (o : Option A) → LeavesAside (or_raise e o)
  aside_or_raise e none = record { at = Aside-refl }
  aside_or_raise e (some a) = record { at = Aside-refl }

aside_check : (b : Bool) (e : Error) → LeavesAside (check b e)
aside_check true e = record { at = Aside-refl }
aside_check false e = record { at = Aside-refl }

module _ {A B : Type 0} where
  after :
      (r : Result A) (db u : Db) (f : A → Exec Db B)
      → Aside db u
      → ((a : A) → LeavesAside (f a))
      → Aside db ((lift r >>= f) u).1
  after (ok a) db u f h k = record {
    agents = ((k a).at u).agents ∙ h.agents;
    keys = ((k a).at u).keys ∙ h.keys;
  }
  after (err e) db u f h k = h

  aside_then :
      (m : Exec Db A) (f : A → Exec Db B)
      → LeavesAside m
      → ((a : A) → LeavesAside (f a))
      → LeavesAside (m >>= f)
  aside_then m f h k = record { at = λ db. let (r, u) = m db in after r db u f (h.at db) k }

aside_append :
    (request : AppendEventRequest) (now : ℕ) → LeavesAside (append_thread_event request now)
aside_append request now = record {
  at = λ db.
      one db (append_thread_event request now db) (append_thread_event-Appending request now db);
}
  where
    one :
        (db : Db) (out : Result (ThreadEvent × Thread) × Db)
        → Appending request now db out
        → Aside db out.1
    one db out (refused e p) = rw p (Aside-refl db)
    one db out (done t n p) = rw p (record { agents = refl; keys = refl })

module _ (db : Db) where
  abbrev Reply : Type 0
  Reply = Result (Thread × Bool) × Db

  by_found :
      (o : Option Thread) (x : Reply)
      → Aside db x.1
      → Aside db (elim o as (λ _. Reply) [ some t ↦ pure (t, false) db | none ↦ x ]).1
  by_found none x h = h
  by_found (some t) x h = Aside-refl db

  by_found_or : (e : Error) (o : Option Thread) → Aside db (found_or e o db).1
  by_found_or e none = Aside-refl db
  by_found_or e (some t) = Aside-refl db

insert_root-Aside :
    (request : RootThreadRequest) (a b : Text) (now : ℕ) (db : Db)
    → Aside db (insert_root request a b now db).1
unfolding insert_root find_root_by_participants
insert_root-Aside request a b now db =
    elim (Bool-cases (
      conflicts db
        (new_thread request.thread_id request.thread_id none request.owner_agent_slug a b now)
        (is_open_root a b))) [
          | inl e ↦ rw e (
              by_found_or db
                (runtime_error (lit "Thread upsert conflict without retrievable root thread"))
                (open_root_by_pair db a b))
          | inr e ↦ rw e (record { agents = refl; keys = refl })
        ]

insert_child-Aside :
    (request : ChildThreadRequest) (a b : Text) (now : ℕ) (db : Db)
    → Aside db (insert_child request a b now db).1
unfolding insert_child find_child_by_participants
insert_child-Aside request a b now db =
    elim (Bool-cases (
      conflicts db
        (new_thread request.thread_id request.root_thread_id (some request.parent_thread_id)
          request.owner_agent_slug a b now)
        (is_open_child request.parent_thread_id a b))) [
          | inl e ↦ rw e (
              by_found_or db
                (runtime_error (lit "Thread upsert conflict without retrievable child thread"))
                (open_child_by_pair db request.parent_thread_id a b))
          | inr e ↦ elim (Bool-cases (exists_row (has_id request.parent_thread_id) db.threads)) [
            | inl k ↦ rw (e, k) (record { agents = refl; keys = refl })
            | inr k ↦ rw (e, k) (Aside-refl db)
          ]
        ]

aside_root :
    (request : RootThreadRequest) (now : ℕ) → LeavesAside (get_or_create_root_thread request now)
unfolding get_or_create_root_thread
aside_root request now = record {
  at = λ db.
      let (a, b) = normalize_participants request.from_agent_slug request.to_agent_slug in
      by_found db (open_root_by_pair db a b) (insert_root request a b now db)
        (insert_root-Aside request a b now db);
}

aside_child :
    (request : ChildThreadRequest) (now : ℕ) → LeavesAside (get_or_create_child_thread request now)
unfolding get_or_create_child_thread
aside_child request now = record {
  at = λ db.
      let (a, b) = normalize_participants request.from_agent_slug request.to_agent_slug in
      by_found db (open_child_by_pair db request.parent_thread_id a b)
        (insert_child request a b now db) (insert_child-Aside request a b now db);
}

ruleset aside_rules = (
  aside_pure, aside_lift, aside_gets, aside_or_raise, aside_check, aside_then, aside_append,
  aside_root, aside_child,
)

aside_resolve :
    (id parent : Option Text) (from to new_id : Text) (now : ℕ)
    → LeavesAside (resolve_message_thread id parent from to new_id now)
unfolding resolve_message_thread resolve_existing_thread resolve_child_thread
aside_resolve (some id) parent from to new_id now = search aside_rules
aside_resolve none (some parent) from to new_id now = search aside_rules depth 12
aside_resolve none none from to new_id now = search aside_rules

module _ (config : Config) (ids : NewIds) (now : ℕ) where
  pub aside_build : (r : MessageRequest) → LeavesAside (build_message_response config ids now r)
  unfolding build_message_response
  aside_build r = search (aside_rules, aside_resolve)
