-- ===== src/Store/Pairs.antt =====
-- store_thread_creation.py: a pair of agents finds its thread from both sides.
use orchestra_threads.Prelude.{
  ℕ, ◌≡◌, refl, ap, sym, ◌∙◌, Bool, true, false, none, some, List, [], ◌∷◌, ◌++◌, arith, inl, inr,
  Bool-cases, Option-cases, ok, err, runtime_error,
}
use orchestra_threads.Text.{Text, lit, eq_refl}
use orchestra_threads.Common.{normalize_participants}
use orchestra_threads.Common.Laws.{normalize_participants_comm}
use orchestra_threads.Sql.{select, order_by, insert_row, first_row}
use orchestra_threads.Sql.Laws.{select-append}
use orchestra_threads.Rows.{Db, Thread}
use orchestra_threads.Store.Creation.{
  RootThreadRequest, get_or_create_root_thread, insert_root, find_root_by_participants,
  open_root_by_pair, is_open_root, conflicts, new_thread, updated_later,
}

-- Only an empty query has no first row.
first-none :
    (before : Thread → Thread → Bool) (xs : List Thread)
    → first_row (order_by before xs) ≡ none
    → xs ≡ []
unfolding first_row order_by insert_row
first-none before [] h = refl
first-none before (x ∷ xs) h = absurd (inserted (order_by before xs) h)
  where
    inserted : (ys : List Thread) → first_row (insert_row before x ys) ≡ none → ⊥
    inserted [] h = cc
    inserted (y ∷ ys) h = elim (Bool-cases (before x y)) [
      | inl e ↦ ground (arith, e)
      | inr e ↦ ground (arith, e)
    ]

-- The row of a new root thread is found by its pair.
found_after :
    (db : Db) (id owner a b : Text) (now : ℕ)
    → open_root_by_pair db a b ≡ none
    → open_root_by_pair
        (record db { threads = db.threads ++ new_thread id id none owner a b now ∷ [] })
        a
        b
      ≡ some (new_thread id id none owner a b now)
unfolding open_root_by_pair select order_by insert_row first_row
found_after db id owner a b now none_yet =
    rw
      (
        select-append (is_open_root a b) db.threads,
        first-none updated_later (select (is_open_root a b) db.threads) none_yet,
        eq_refl a,
        eq_refl b,
      )
      refl

-- The pair in normal form, and the two ways in which the call creates nothing.
module _ (request : RootThreadRequest) (now : ℕ) (db : Db) where
  abbrev left : Text
  left = (normalize_participants request.from_agent_slug request.to_agent_slug).0

  abbrev right : Text
  right = (normalize_participants request.from_agent_slug request.to_agent_slug).1

  abbrev row : Thread
  row = new_thread request.thread_id request.thread_id none request.owner_agent_slug left right now

  abbrev filled : Db
  filled = record db { threads = db.threads ++ row ∷ [] }

  existing_lem :
      (t : Thread)
      → open_root_by_pair db left right ≡ some t
      → get_or_create_root_thread request now db ≡ (ok (t, false), db)
  unfolding get_or_create_root_thread
  existing_lem t h = rw (h, get_or_create_root_thread) refl

  clash_lem :
      open_root_by_pair db left right ≡ none
      → conflicts db row (is_open_root left right) ≡ true
      → get_or_create_root_thread request now db
        ≡ (err (runtime_error (lit "Thread upsert conflict without retrievable root thread")), db)
  unfolding get_or_create_root_thread lit
  clash_lem h k =
      rw (h, get_or_create_root_thread)
        (rw (k, insert_root) (rw (h, find_root_by_participants) refl))

  missing_lem :
      open_root_by_pair db left right ≡ none
      → conflicts db row (is_open_root left right) ≡ false
      → get_or_create_root_thread request now db ≡ (ok (row, true), filled)
  unfolding get_or_create_root_thread
  missing_lem h k = rw (h, get_or_create_root_thread) (rw (k, insert_root) refl)

  -- What a call that creates a thread leaves.
  record Created (t : Thread) (u : Db) : Type 0 where
    pub free : open_root_by_pair db left right ≡ none
    pub thread : t ≡ row
    pub store : u ≡ filled

  created_lem :
      (t : Thread) (u : Db)
      → get_or_create_root_thread request now db ≡ (ok (t, true), u)
      → Created t u
  created_lem t u h = elim (Option-cases (open_root_by_pair db left right)) [
    | inr (x, e) ↦ absurd (cc (h, existing_lem x e))
    | inl e ↦ elim (Bool-cases (conflicts db row (is_open_root left right))) [
      | inl k ↦ absurd (cc (h, clash_lem e k))
      | inr k ↦ record {
        free = e;
        thread = cc (h, missing_lem e k);
        store = cc (h, missing_lem e k);
      }
    ]
  ]

-- When the root thread of two agents has just been created at the request of one of them, the other
-- one's request, with whatever new id and owner and at any later time, finds that thread, creates none,
-- and writes nothing.
pub both_sides_find_root :
    (db u : Db) (request back : RootThreadRequest) (now later : ℕ) (t : Thread)
    → back.from_agent_slug ≡ request.to_agent_slug
    → back.to_agent_slug ≡ request.from_agent_slug
    → get_or_create_root_thread request now db ≡ (ok (t, true), u)
    → get_or_create_root_thread back later u ≡ (ok (t, false), u)
both_sides_find_root db u request back now later t from to h =
    let k = created_lem request now db t u h in
    existing_lem back later u t (
      ap (λ (p : Text × Text). open_root_by_pair u p.0 p.1)
        (rw (from, to)
          (sym (normalize_participants_comm request.from_agent_slug request.to_agent_slug).0))
      ∙ ap (λ v. open_root_by_pair v (left request now db) (right request now db)) k.store
      ∙ found_after db request.thread_id request.owner_agent_slug (left request now db)
          (right request now db) now k.free
      ∙ ap some (sym k.thread))
