-- ===== src/Invariant/Keys.antt =====
-- The keys of `threads`: the id, and for live threads the parent and the pair of participants.
use orchestra_threads.Prelude.{
  ℕ, ◌≡◌, refl, ap, ◌∙◌, sym, Bool, true, false, Option, none, some, List, [], ◌∷◌, ◌++◌, arith,
  inl, inr, Bool-cases, All, All-append, All-map, not, ◌&&◌, ◌||◌,
}
use mathlib.Core.Option
use orchestra_threads.Text.{Text, ◌==◌, eq→path, eq_comm, eq_iff}
use orchestra_threads.Common.{Status, is_terminal}
use orchestra_threads.Sql.{fetchrow, update, exists_row}
use orchestra_threads.Sql.Laws.{exists_row-All-false}
use orchestra_threads.Rows.{Db, Thread}
use orchestra_threads.Store.Query.{has_id, get_thread, is_live}
use orchestra_threads.Store.Events.{EventInsertRequest, updated_thread}
use orchestra_threads.Store.Creation.{has_participants}
use orchestra_threads.Store.Notifications.{terminated}
use orchestra_threads.Change
use orchestra_threads.Change.{same_parent, clashes}

-- Two rows with one id, or two live rows with one parent and one pair.
abbrev pub conflict : Thread → Thread → Bool
conflict x u =
    u.thread_id == x.thread_id
    || (is_live x
        && (same_parent x.parent_thread_id u.parent_thread_id
            && (has_participants x.participant_a_agent_slug x.participant_b_agent_slug u
                && is_live u)))

abbrev pub Distinct : List Thread → Type 0
Distinct [] = Unit
Distinct (x ∷ xs) = All (λ u. conflict x u ≡ false) xs × Distinct xs

abbrev pub IsKeyed : Db → Type 0
IsKeyed db = Distinct db.threads

same_parent_comm : (o q : Option Text) → same_parent o q ≡ same_parent q o
same_parent_comm none none = refl
same_parent_comm none (some b) = refl
same_parent_comm (some a) none = refl
same_parent_comm (some a) (some b) = eq_comm b a

conflict_of_clashes : (x t : Thread) → clashes t x ≡ false → conflict x t ≡ false
conflict_of_clashes x t h = ground (
  arith,
  eq_comm t.thread_id x.thread_id,
  same_parent_comm x.parent_thread_id t.parent_thread_id,
  eq_comm t.participant_a_agent_slug x.participant_a_agent_slug,
  eq_comm t.participant_b_agent_slug x.participant_b_agent_slug,
)

Distinct-append :
    (xs : List Thread) (t : Thread)
    → Distinct xs
    → exists_row (clashes t) xs ≡ false
    → Distinct (xs ++ t ∷ [])
Distinct-append [] t d h = (tt, tt)
Distinct-append (x ∷ xs) t d h =
    let free = exists_row-All-false (clashes t) (x ∷ xs) h in
    (
      All-append _ xs (t ∷ []) d.0 (conflict_of_clashes x t free.0, tt),
      Distinct-append xs t d.1 (unfold exists_row in ground arith),
    )

-- An UPDATE that keeps the keys and brings no thread back to life.
pub record KeepsKeys (f : Thread → Thread) : Type 0 where
  pub thread_id : (t : Thread) → (f t).thread_id ≡ t.thread_id
  pub parent : (t : Thread) → (f t).parent_thread_id ≡ t.parent_thread_id
  pub a : (t : Thread) → (f t).participant_a_agent_slug ≡ t.participant_a_agent_slug
  pub b : (t : Thread) → (f t).participant_b_agent_slug ≡ t.participant_b_agent_slug

module _ (p : Thread → Bool) (f : Thread → Thread) (k : KeepsKeys f) where
  left_conflict :
      (x u : Thread)
      → (is_live (f x) ≡ true → is_live x ≡ true)
      → conflict x u ≡ false
      → conflict (f x) u ≡ false
  left_conflict x u live h = rw (k.thread_id x, k.parent x, k.a x, k.b x) (ground arith)

  right_conflict :
      (x u : Thread)
      → (is_live (f u) ≡ true → is_live u ≡ true)
      → conflict x u ≡ false
      → conflict x (f u) ≡ false
  right_conflict x u live h = rw (k.thread_id u, k.parent u, k.a u, k.b u) (ground arith)

  -- `Fine x`: whenever `x` is changed it was live, or stays as dead as it was.
  abbrev Fine : Thread → Type 0
  Fine x = p x ≡ true → is_live (f x) ≡ true → is_live x ≡ true

  Distinct-update : (xs : List Thread) → All Fine xs → Distinct xs → Distinct (update p f xs)
  unfolding update
  Distinct-update [] fine d = tt
  Distinct-update (x ∷ xs) fine d = (
    elim (Bool-cases (p x)) [
      | inl e ↦
          rw e (rest (f x) xs fine.1 (All-map _ _ xs (λ u h. left_conflict x u (fine.0 e) h) d.0))
      | inr e ↦ rw e (rest x xs fine.1 d.0)
    ],
    Distinct-update xs fine.1 d.1,
  )
    where
      rest :
          (y : Thread) (us : List Thread)
          → All Fine us
          → All (λ u. conflict y u ≡ false) us
          → All (λ u. conflict y u ≡ false) (update p f us)
      rest y [] g h = tt
      rest y (u ∷ us) g h = (
        elim (Bool-cases (p u)) [
          | inl e ↦ rw e (right_conflict y u (g.0 e) h.0)
          | inr e ↦ rw e h.0
        ],
        rest y us g.1 h.1,
      )

-- The row of an id is the only one.
abbrev pub Sole : Text → Thread → Thread → Type 0
Sole thread_id t x = has_id thread_id x ≡ true → x ≡ t

only_rest :
    (thread_id : Text) (x t : Thread) (xs : List Thread)
    → has_id thread_id x ≡ true
    → All (λ u. conflict x u ≡ false) xs
    → All (Sole thread_id t) xs
only_rest thread_id x t [] h d = tt
only_rest thread_id x t (u ∷ us) h d = (
  λ k. absurd (apart u (eq→path x.thread_id thread_id h) (eq→path u.thread_id thread_id k) d.0),
  only_rest thread_id x t us h d.1,
)
  where
    apart :
        (u : Thread) → x.thread_id ≡ thread_id → u.thread_id ≡ thread_id → conflict x u ≡ false → ⊥
    apart u a b c = ground (arith, eq_iff u.thread_id x.thread_id)

pub only_row :
    (threads : List Thread) (thread_id : Text) (t : Thread)
    → Distinct threads
    → fetchrow (has_id thread_id) threads ≡ some t
    → All (Sole thread_id t) threads
unfolding fetchrow
only_row [] thread_id t d h = tt
only_row (x ∷ xs) thread_id t d h = elim (Bool-cases (has_id thread_id x)) [
  | inl e ↦ ((λ _. Option.some_inj.0 (ground arith)), only_rest thread_id x t xs e d.0)
  | inr e ↦ ((λ k. absurd (ground arith)), only_row xs thread_id t d.1 (ground arith))
]

appended-Distinct :
    (db : Db) (r : EventInsertRequest) (t : Thread)
    → Change.IsNext db r t
    → IsKeyed db
    → IsKeyed (Change.with_event r db)
unfolding get_thread updated_thread
appended-Distinct db r t n d =
    Distinct-update (has_id r.thread_id) (updated_thread r)
      (record { thread_id = λ x. refl; parent = λ x. refl; a = λ x. refl; b = λ x. refl })
      db.threads
      (All-map (Sole r.thread_id t) _ db.threads (λ x sole hit _. ap is_live (sole hit) ∙ n.live)
        (only_row db.threads r.thread_id t d n.found))
      d

-- A row that an UPDATE changes may not be alive after it if it was not before.
never_revived :
    (p : Thread → Bool) (f : Thread → Thread)
    → ((x : Thread) → p x ≡ true → is_live (f x) ≡ true → is_live x ≡ true)
    → (xs : List Thread) → All (λ x. p x ≡ true → is_live (f x) ≡ true → is_live x ≡ true) xs
never_revived p f h [] = tt
never_revived p f h (x ∷ xs) = (h x, never_revived p f h xs)

ended-Distinct :
    (db : Db) (thread_id : Text) (s : Status) (now : ℕ)
    → is_terminal s ≡ true
    → IsKeyed db
    → IsKeyed (Change.ended thread_id s now db)
unfolding terminated
ended-Distinct db thread_id s now k d =
    Distinct-update (λ t. has_id thread_id t && is_live t) (terminated s now)
      (record { thread_id = λ x. refl; parent = λ x. refl; a = λ x. refl; b = λ x. refl })
      db.threads
      (never_revived (λ t. has_id thread_id t && is_live t) (terminated s now)
        (λ x hit live. absurd (cc (ap not k, live))) db.threads)
      d

-- Every change keeps the keys apart.
pub Change-IsKeyed : {db u : Db} → Change.Change db u → IsKeyed db → IsKeyed u
Change-IsKeyed (Change.aside e k) d = rw e d
Change-IsKeyed {db} (Change.created t n e) d = rw e (Distinct-append db.threads t d n.unclashed)
Change-IsKeyed {db} (Change.appended r t n c l e) d = rw e (appended-Distinct db r t n d)
Change-IsKeyed {db} (Change.finished r t reason n c l q e) d = rw e (appended-Distinct db r t n d)
Change-IsKeyed {db} (Change.closed i s now reason k e) d = rw e (ended-Distinct db i s now k d)
Change-IsKeyed (Change.redelivered p f k e) d = rw e d
Change-IsKeyed {db} (Change.touched p f k e) d = rw e (
    Distinct-update p f (record { thread_id = k.thread_id; parent = k.parent; a = k.a; b = k.b })
      db.threads
      (never_revived p f (λ x hit live. ap (λ s. not (is_terminal s)) (sym (k.status x)) ∙ live)
        db.threads)
      d)
