-- ===== src/Change/Flows.antt =====
-- The blocks of the flows that run under the lock make nothing but primitive changes.
use orchestra_threads.Prelude.{
  ℕ, ◌≡◌, refl, ap, ◌∙◌, Bool, true, false, ◌&&◌, ◌||◌, not, Option, none, some, Error, Result, ok,
  err, inl, inr, Bool-cases, Option-cases, ◌>>=◌, lift, is_some,
}
use mathlib.Core.Path.{fun_ext}
use orchestra_threads.Text.{Text, ◌==◌}
use orchestra_threads.Common.{is_terminal, normalize_participants}
use orchestra_threads.Sql.{exists_row}
use orchestra_threads.Rows.{Db, Thread, Response}
use orchestra_threads.Store.Query.{get_thread, has_id}
use orchestra_threads.Store.Creation.{
  RootThreadRequest, ChildThreadRequest, get_or_create_root_thread, get_or_create_child_thread,
  open_root_by_pair, open_child_by_pair, conflicts, is_open_root, is_open_child, new_thread,
  insert_root, insert_child, found_or,
}
use orchestra_threads.Service.Routing.{thread_peer_agent_slug}
use orchestra_threads.Service.Message.{
  NewIds, resolve_existing_thread, resolve_child_thread, resolve_message_thread,
  build_message_response, answer, send_message_with_lock_context,
}
use orchestra_threads.Requests.{MessageRequest}
use orchestra_threads.Service.Config.{Config}
use orchestra_threads.Change
use orchestra_threads.Change.{Change, Changes, here, next, IsNew, live_in, live_found}
use orchestra_threads.Change.Actions.{Makes, makes_rules, Makes->>=, Makes-pure}
use orchestra_threads.Change.Operations.{append_thread_event-Makes, save_idempotent_result-Makes}

found_or-here : (e : Error) (o : Option Thread) (db : Db) → Changes db (found_or e o db).1
found_or-here e none db = here
found_or-here e (some t) db = here

abbrev root_row : RootThreadRequest → Text → Text → ℕ → Thread
root_row request a b now =
    new_thread request.thread_id request.thread_id none request.owner_agent_slug a b now

abbrev child_row : ChildThreadRequest → Text → Text → ℕ → Thread
child_row request a b now =
    new_thread request.thread_id request.root_thread_id (some request.parent_thread_id)
      request.owner_agent_slug a b now

root_row-IsNew :
    (request : RootThreadRequest) (a b : Text) (now : ℕ) (db : Db)
    → conflicts db (root_row request a b now) (is_open_root a b) ≡ false
    → IsNew db (root_row request a b now)
unfolding conflicts
root_row-IsNew request a b now db e = record {
  unclashed =
      ap (λ (p : Thread → Bool). exists_row p db.threads)
        (fun_ext λ u. no_parent _ _ u.parent_thread_id)
      ∙ e;
  status = refl;
  unnumbered = refl;
  running = refl;
  parent = refl;
}
  where
    no_parent :
        (x y : Bool) (o : Option Text)
        → (x || (Change.same_parent none o && y)) ≡ (x || (not (is_some o) && y))
    no_parent x y none = refl
    no_parent x y (some q) = refl

child_row-IsNew :
    (request : ChildThreadRequest) (a b : Text) (now : ℕ) (db : Db)
    → conflicts db (child_row request a b now) (is_open_child request.parent_thread_id a b) ≡ false
    → live_in db request.parent_thread_id ≡ true
    → IsNew db (child_row request a b now)
unfolding conflicts
child_row-IsNew request a b now db e live = record {
  unclashed =
      ap (λ (p : Thread → Bool). exists_row p db.threads)
        (fun_ext λ u. one_parent _ _ u.parent_thread_id)
      ∙ e;
  status = refl;
  unnumbered = refl;
  running = refl;
  parent = live;
}
  where
    one_parent :
        (x y : Bool) (o : Option Text)
        → (x || (Change.same_parent (some request.parent_thread_id) o && y))
          ≡ (x || ((elim o [ none ↦ false | some p ↦ p == request.parent_thread_id ]) && y))
    one_parent x y none = refl
    one_parent x y (some q) = refl

insert_root-Changes :
    (request : RootThreadRequest) (a b : Text) (now : ℕ) (db : Db)
    → Changes db (insert_root request a b now db).1
unfolding insert_root
insert_root-Changes request a b now db =
    elim (Bool-cases (conflicts db (root_row request a b now) (is_open_root a b))) [
      | inl e ↦ rw e (found_or-here _ (open_root_by_pair db a b) db)
      | inr e ↦ rw e (next here (Change.created _ (root_row-IsNew request a b now db e) refl))
    ]

insert_child-Changes :
    (request : ChildThreadRequest) (a b : Text) (now : ℕ) (db : Db)
    → live_in db request.parent_thread_id ≡ true
    → Changes db (insert_child request a b now db).1
unfolding insert_child
insert_child-Changes request a b now db live =
    elim (Bool-cases
      (conflicts db (child_row request a b now) (is_open_child request.parent_thread_id a b))) [
        | inl e ↦ rw e (found_or-here _ (open_child_by_pair db request.parent_thread_id a b) db)
        | inr e ↦ elim (Bool-cases (exists_row (has_id request.parent_thread_id) db.threads)) [
          | inl k ↦
              rw (e, k)
                (next here (Change.created _ (child_row-IsNew request a b now db e live) refl))
          | inr k ↦ rw (e, k) here
        ]
      ]

get_or_create_root_thread-Makes :
    (request : RootThreadRequest) (now : ℕ) → Makes (get_or_create_root_thread request now)
unfolding get_or_create_root_thread
get_or_create_root_thread-Makes request now = record { at = one }
  where
    one : (db : Db) → Changes db (get_or_create_root_thread request now db).1
    one db =
        let (a, b) = normalize_participants request.from_agent_slug request.to_agent_slug in
        elim (Option-cases (open_root_by_pair db a b)) [
          | inl e ↦ rw (e, get_or_create_root_thread) (insert_root-Changes request a b now db)
          | inr (t, e) ↦ rw (e, get_or_create_root_thread) here
        ]

get_or_create_child_thread-Changes :
    (request : ChildThreadRequest) (now : ℕ) (db : Db)
    → live_in db request.parent_thread_id ≡ true
    → Changes db (get_or_create_child_thread request now db).1
unfolding get_or_create_child_thread
get_or_create_child_thread-Changes request now db live =
    let (a, b) = normalize_participants request.from_agent_slug request.to_agent_slug in
    elim (Option-cases (open_child_by_pair db request.parent_thread_id a b)) [
      | inl e ↦ rw (e, get_or_create_child_thread) (insert_child-Changes request a b now db live)
      | inr (t, e) ↦ rw (e, get_or_create_child_thread) here
    ]

-- A child is made under a parent that has just been found live.
resolve_child_thread-Makes :
    (parent from to new_id : Text) (now : ℕ)
    → Makes (resolve_child_thread parent from to new_id now)
unfolding resolve_child_thread
resolve_child_thread-Makes parent from to new_id now = record { at = one }
  where
    routed :
        (db : Db) (t : Thread) (r : Result Text)
        → live_in db parent ≡ true
        → Changes db
            ((lift r >>= λ _.
                get_or_create_child_thread
                  (record {
                    thread_id = new_id;
                    root_thread_id = t.root_thread_id;
                    parent_thread_id = parent;
                    owner_agent_slug = from;
                    from_agent_slug = from;
                    to_agent_slug = to;
                  })
                  now)
              db).1
    routed db t (err e) live = here
    routed db t (ok peer) live = get_or_create_child_thread-Changes _ now db live

    one : (db : Db) → Changes db (resolve_child_thread parent from to new_id now db).1
    one db = elim (Option-cases (get_thread db parent)) [
      | inl e ↦ rw e here
      | inr (t, e) ↦ elim (Bool-cases (is_terminal t.status)) [
        | inl k ↦ rw (e, k) here
        | inr k ↦
            rw (e, k) (routed db t (thread_peer_agent_slug t from) (unfold live_in in rw (e, k)))
      ]
    ]

resolve_existing_thread-Makes : (id from to : Text) → Makes (resolve_existing_thread id from to)
unfolding resolve_existing_thread
resolve_existing_thread-Makes id from to = search makes_rules

resolve_message_thread-Makes :
    (id parent : Option Text) (from to new_id : Text) (now : ℕ)
    → Makes (resolve_message_thread id parent from to new_id now)
unfolding resolve_message_thread
resolve_message_thread-Makes (some id) parent from to new_id now =
    resolve_existing_thread-Makes id from to
resolve_message_thread-Makes none (some parent) from to new_id now =
    resolve_child_thread-Makes parent from to new_id now
resolve_message_thread-Makes none none from to new_id now = get_or_create_root_thread-Makes _ now

module _ (config : Config) (ids : NewIds) (now : ℕ) where
  build_message_response-Makes :
      (r : MessageRequest) → Makes (build_message_response config ids now r)
  unfolding build_message_response
  build_message_response-Makes r =
      Makes->>= _ _ (resolve_message_thread-Makes _ _ _ _ _ _) λ (t, created).
        Makes->>= _ _ (append_thread_event-Makes _ _ refl refl) λ (event, payload). Makes-pure _

  answer-Makes :
      (r : MessageRequest) (cached : Option Response) → Makes (answer config ids now r cached)
  answer-Makes r none =
      search (makes_rules, build_message_response-Makes, save_idempotent_result-Makes)
  answer-Makes r (some cached) = Makes-pure cached

  pub send_message-Makes :
      (r : MessageRequest) → Makes (send_message_with_lock_context config ids now r)
  unfolding send_message_with_lock_context
  send_message-Makes r = search (makes_rules, answer-Makes)
