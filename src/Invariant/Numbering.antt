-- ===== src/Invariant/Numbering.antt =====
-- The events of each thread are numbered 1, 2, 3, … without a gap, in the order in which they were
-- written, and `last_sequence_no` is the last of these numbers.
use orchestra_threads.Prelude.{
  ℕ, zero, suc, ◌≡◌, refl, sym, ap, ◌∙◌, Bool, true, false, List, [], ◌∷◌, ◌++◌, map, arith, inl,
  inr, Bool-cases, All, All-append, All-map, is_some, if◌then◌else◌,
}
use mathlib.Core.List.{map-append, append-nil}
use orchestra_threads.Text.{Text, ◌==◌, eq_iff, eq→path, eq_comm}
use orchestra_threads.Sql.{select, update, exists_row}
use orchestra_threads.Sql.Laws.{
  select-append, select-update, select-eq-nil, All-update, All-update_to, All-fetchrow,
  fetchrow-true, exists_row-append, exists_row-update, exists_row_mono, exists_row-eq-is_some,
}
use orchestra_threads.Rows.{Db, Thread, ThreadEvent}
use orchestra_threads.Store.Query.{has_id, event_of, get_thread}
use orchestra_threads.Store.Events.{EventInsertRequest, inserted_event, updated_thread}
use orchestra_threads.Store.Notifications.{terminated}
use orchestra_threads.Change

abbrev pub count_to : ℕ → List ℕ
count_to zero = []
count_to (suc n) = count_to n ++ suc n ∷ []

abbrev pub numbers_of : List ThreadEvent → Text → List ℕ
numbers_of events thread_id = map (λ e. e.sequence_no) (select (event_of thread_id) events)

abbrev pub Numbered : List ThreadEvent → Thread → Type 0
Numbered events t = numbers_of events t.thread_id ≡ count_to t.last_sequence_no

abbrev Owned : List Thread → ThreadEvent → Type 0
Owned threads e = exists_row (has_id e.thread_id) threads ≡ true

pub record IsNumbered (db : Db) : Type 0 where
  pub numbers : All (Numbered db.thread_events) db.threads
  pub owned : All (Owned db.threads) db.thread_events

numbers-append :
    (events : List ThreadEvent) (e : ThreadEvent) (thread_id : Text)
    → numbers_of (events ++ e ∷ []) thread_id ≡ (
        if event_of thread_id e
        then numbers_of events thread_id ++ e.sequence_no ∷ []
        else numbers_of events thread_id)
unfolding select
numbers-append events e thread_id = elim (Bool-cases (event_of thread_id e)) [
  | inl h ↦ rw (select-append, map-append, h)
  | inr h ↦ rw (select-append, map-append, h) (append-nil _)
]

map-update :
    (p : ThreadEvent → Bool) (f : ThreadEvent → ThreadEvent)
    → Change.KeepsEvent f
    → (xs : List ThreadEvent)
    → map (λ e. e.sequence_no) (update p f xs) ≡ map (λ e. e.sequence_no) xs
unfolding update
map-update p f k [] = refl
map-update p f k (x ∷ xs) = ground (arith, map-update p f k xs, k.number x)

numbers-update :
    (p : ThreadEvent → Bool) (f : ThreadEvent → ThreadEvent)
    → Change.KeepsEvent f
    → (events : List ThreadEvent) (thread_id : Text)
    → numbers_of (update p f events) thread_id ≡ numbers_of events thread_id
numbers-update p f k events thread_id =
    rw
      (select-update (event_of thread_id) p f
        (λ e. ap (λ (i : Text). i == thread_id) (k.thread_id e)) events)
      (map-update p f k (select (event_of thread_id) events))

-- An UPDATE of events keeps the numbering.
redelivered-IsNumbered :
    (db : Db) (p : ThreadEvent → Bool) (f : ThreadEvent → ThreadEvent)
    → Change.KeepsEvent f
    → IsNumbered db
    → IsNumbered (record db { thread_events = update p f db.thread_events })
redelivered-IsNumbered db p f k h = record {
  numbers =
      All-map _ _ db.threads (λ t n. numbers-update p f k db.thread_events t.thread_id ∙ n)
        h.numbers;
  owned =
      All-update (Owned db.threads) p f (λ e _ o. rw (k.thread_id e) o) db.thread_events h.owned;
}

-- So does an UPDATE of threads that keeps ids and numbers.
touched-IsNumbered :
    (db : Db) (p : Thread → Bool) (f : Thread → Thread)
    → ((t : Thread) → (f t).thread_id ≡ t.thread_id)
    → ((t : Thread) → (f t).last_sequence_no ≡ t.last_sequence_no)
    → IsNumbered db
    → IsNumbered (record db { threads = update p f db.threads })
touched-IsNumbered db p f ids numbers h = record {
  numbers =
      All-update (Numbered db.thread_events) p f (λ t _ n. rw (ids t, numbers t) n) db.threads
        h.numbers;
  owned =
      All-map _ _ db.thread_events
        (λ e o.
          exists_row-update (has_id e.thread_id) p f
            (λ t. ap (λ (i : Text). i == e.thread_id) (ids t)) db.threads
          ∙ o)
        h.owned;
}

numbers_before :
    (db : Db) (r : EventInsertRequest) (t : Thread)
    → Change.IsNext db r t
    → IsNumbered db
    → numbers_of db.thread_events r.thread_id ≡ count_to t.last_sequence_no
unfolding get_thread
numbers_before db r t n h =
    ap (numbers_of db.thread_events) (
      sym (eq→path t.thread_id r.thread_id (fetchrow-true (has_id r.thread_id) db.threads n.found)))
    ∙ All-fetchrow (Numbered db.thread_events) (has_id r.thread_id) db.threads h.numbers n.found

numbers_after :
    (db : Db) (r : EventInsertRequest) (t : Thread)
    → Change.IsNext db r t
    → IsNumbered db
    → numbers_of db.thread_events r.thread_id ++ r.next_sequence ∷ [] ≡ count_to r.next_sequence
numbers_after db r t n h =
    let e : r.next_sequence ≡ suc t.last_sequence_no = omega (arith, n.number) in
    rw (numbers_before db r t n h, e)

still_owned :
    (db : Db) (r : EventInsertRequest) (thread_id : Text)
    → exists_row (has_id thread_id) (update (has_id r.thread_id) (updated_thread r) db.threads)
      ≡ exists_row (has_id thread_id) db.threads
unfolding updated_thread
still_owned db r thread_id =
    exists_row-update (has_id thread_id) (has_id r.thread_id) (updated_thread r) (λ t. refl)
      db.threads

thread_there :
    (db : Db) (r : EventInsertRequest) (t : Thread)
    → Change.IsNext db r t
    → exists_row (has_id r.thread_id) db.threads ≡ true
unfolding get_thread
thread_there db r t n = exists_row-eq-is_some (has_id r.thread_id) db.threads ∙ ap is_some n.found

id_free :
    (db : Db) (t : Thread) → Change.IsNew db t → exists_row (has_id t.thread_id) db.threads ≡ false
id_free db t n = ground (
  arith,
  n.unclashed,
  exists_row_mono (has_id t.thread_id) (Change.clashes t) (λ u h. ground arith) db.threads,
)

no_events :
    (db : Db) (t : Thread)
    → Change.IsNew db t
    → IsNumbered db
    → numbers_of db.thread_events t.thread_id ≡ []
no_events db t n h = ap (map (λ (e : ThreadEvent). e.sequence_no)) (
    select-eq-nil (event_of t.thread_id) db.thread_events (
      All-map (Owned db.threads) _ db.thread_events
        (λ e o. ground (arith, eq_iff e.thread_id t.thread_id, id_free db t n, o)) h.owned))

appended-IsNumbered :
    (db : Db) (r : EventInsertRequest) (t : Thread)
    → Change.IsNext db r t
    → IsNumbered db
    → IsNumbered (Change.with_event r db)
unfolding updated_thread inserted_event
appended-IsNumbered db r t n h = record {
  numbers =
      All-update_to (Numbered db.thread_events)
        (Numbered (db.thread_events ++ inserted_event r ∷ [])) (has_id r.thread_id)
        (updated_thread r)
        (λ x hit _.
          let e : x.thread_id ≡ r.thread_id = eq→path x.thread_id r.thread_id hit in
          numbers-append db.thread_events (inserted_event r) x.thread_id
          ∙ rw (eq_comm r.thread_id x.thread_id, hit, e) (numbers_after db r t n h))
        (λ x miss k.
          numbers-append db.thread_events (inserted_event r) x.thread_id
          ∙ rw (eq_comm r.thread_id x.thread_id, miss) k)
        db.threads h.numbers;
  owned =
      All-append (Owned _) db.thread_events (inserted_event r ∷ [])
        (All-map _ _ db.thread_events (λ e o. still_owned db r e.thread_id ∙ o) h.owned)
        (still_owned db r r.thread_id ∙ thread_there db r t n, tt);
}

created-IsNumbered :
    (db : Db) (t : Thread)
    → Change.IsNew db t
    → IsNumbered db
    → IsNumbered (record db { threads = db.threads ++ t ∷ [] })
created-IsNumbered db t n h = record {
  numbers = All-append _ db.threads (t ∷ []) h.numbers (rw n.unnumbered (no_events db t n h), tt);
  owned =
      All-map _ _ db.thread_events
        (λ e o. exists_row-append (has_id e.thread_id) db.threads t ∙ rw o refl) h.owned;
}

-- Every primitive change keeps the numbering.
pub Change-IsNumbered : {db u : Db} → Change.Change db u → IsNumbered db → IsNumbered u
unfolding terminated
Change-IsNumbered {db} {u} (Change.aside t e) h = record {
  numbers = rw (t, e) h.numbers;
  owned = rw (t, e) h.owned;
}
Change-IsNumbered {db} (Change.created t n e) h = rw e (created-IsNumbered db t n h)
Change-IsNumbered {db} (Change.appended r t n c l e) h = rw e (appended-IsNumbered db r t n h)
Change-IsNumbered {db} (Change.finished r t reason n c l q e) h = rw e (
    redelivered-IsNumbered (Change.with_event r db) _ _ (Change.keeps_canceled reason)
      (appended-IsNumbered db r t n h))
Change-IsNumbered {db} (Change.closed i s now reason k e) h = rw e (
    redelivered-IsNumbered (Change.ended i s now db) _ _ (Change.keeps_canceled reason)
      (touched-IsNumbered db _ _ (λ t. refl) (λ t. refl) h))
Change-IsNumbered {db} (Change.redelivered p f k e) h = rw e (redelivered-IsNumbered db p f k h)
Change-IsNumbered {db} (Change.touched p f k e) h =
    rw e (touched-IsNumbered db p f k.thread_id k.number h)
