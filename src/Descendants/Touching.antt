-- ===== src/Descendants/Touching.antt =====
-- What the locked block of a notification does to the tree: it may end the thread that it names, and
-- nothing else.
use orchestra_threads.Prelude.{
  ◌≡◌, refl, ◌∙◌, true, false, ◌&&◌, ◌||◌, not, Option, none, some, List, [], ◌∷◌, arith, inl, inr,
  Bool-cases, ap,
}
use orchestra_threads.Text.{Text, ◌==◌, eq→path}
use orchestra_threads.Sql.{fetchrow, exists_row}
use orchestra_threads.Rows.{Db, Thread}
use orchestra_threads.Store.Query.{has_id, get_thread, is_live}
use orchestra_threads.Descendants.{child_of, ended_found, parent_ended, is_orphan}
use orchestra_threads.Descendants.Aging.{Aged}

-- The row keeps its id and parent and is not revived; if it has another id than `i`, it stays as live
-- as it was.
pub record TouchedRow (i : Text) (x y : Thread) : Type 0 where
  pub thread_id : y.thread_id ≡ x.thread_id
  pub parent : y.parent_thread_id ≡ x.parent_thread_id
  pub live : is_live y ≡ true → is_live x ≡ true
  pub other : (x.thread_id == i) ≡ false → is_live y ≡ is_live x

abbrev pub Touched : Text → List Thread → List Thread → Type 0
Touched i [] [] = Unit
Touched i [] (y ∷ ys) = ⊥
Touched i (x ∷ xs) [] = ⊥
Touched i (x ∷ xs) (y ∷ ys) = TouchedRow i x y × Touched i xs ys

pub Touched-refl : (i : Text) (xs : List Thread) → Touched i xs xs
Touched-refl i [] = tt
Touched-refl i (x ∷ xs) = (
  record { thread_id = refl; parent = refl; live = λ h. h; other = λ h. refl },
  Touched-refl i xs,
)

pub Touched-trans :
    (i : Text) (xs ys zs : List Thread) → Touched i xs ys → Touched i ys zs → Touched i xs zs
Touched-trans i [] [] zs h k = k
Touched-trans i [] (y ∷ ys) zs h k = absurd h
Touched-trans i (x ∷ xs) [] zs h k = absurd h
Touched-trans i (x ∷ xs) (y ∷ ys) [] h k = absurd k
Touched-trans i (x ∷ xs) (y ∷ ys) (z ∷ zs) h k = (
  record {
    thread_id = k.0.thread_id ∙ h.0.thread_id;
    parent = k.0.parent ∙ h.0.parent;
    live = λ l. h.0.live (k.0.live l);
    other = λ l. k.0.other (ap (λ (t : Text). t == i) h.0.thread_id ∙ l) ∙ h.0.other l;
  },
  Touched-trans i xs ys zs h.1 k.1,
)

pub Touched-Aged : (i : Text) (xs ys : List Thread) → Touched i xs ys → Aged xs ys
Touched-Aged i [] [] h = tt
Touched-Aged i [] (y ∷ ys) h = absurd h
Touched-Aged i (x ∷ xs) [] h = absurd h
Touched-Aged i (x ∷ xs) (y ∷ ys) h = (
  record { thread_id = h.0.thread_id; parent = h.0.parent; live = h.0.live },
  Touched-Aged i xs ys h.1,
)

-- Threads with another id end only if they had ended.
ended-Touched :
    (i q : Text) (xs ys : List Thread)
    → Touched i xs ys
    → (q == i) ≡ false
    → ended_found (fetchrow (has_id q) ys) ≡ ended_found (fetchrow (has_id q) xs)
unfolding fetchrow
ended-Touched i q [] [] h ne = refl
ended-Touched i q [] (y ∷ ys) h ne = absurd h
ended-Touched i q (x ∷ xs) [] h ne = absurd h
ended-Touched i q (x ∷ xs) (y ∷ ys) h ne = elim (Bool-cases (has_id q x)) [
  | inl e ↦
      let hit : has_id q y ≡ true = ap (λ (t : Text). t == q) h.0.thread_id ∙ e in
      let same : is_live y ≡ is_live x =
        h.0.other (ap (λ (t : Text). t == i) (eq→path x.thread_id q e) ∙ ne) in
      rw (e, hit) (ground (arith, same))
  | inr e ↦
      let miss : has_id q y ≡ false = ap (λ (t : Text). t == q) h.0.thread_id ∙ e in
      rw (e, miss) (ended-Touched i q xs ys h.1 ne)
]

parent-Touched :
    (i : Text) (db u : Db) (p : Option Text)
    → Touched i db.threads u.threads
    → parent_ended u p ≡ true
    → (child_of i p || parent_ended db p) ≡ true
unfolding parent_ended get_thread
parent-Touched i db u none h k = k
parent-Touched i db u (some q) h k = elim (Bool-cases (q == i)) [
  | inl e ↦ ground (arith, e)
  | inr e ↦ ground (arith, e, ended-Touched i q db.threads u.threads h e)
]

rows-Touched :
    (i : Text) (db u : Db) (xs ys : List Thread)
    → Touched i db.threads u.threads
    → Touched i xs ys
    → exists_row (is_orphan db) xs ≡ false
    → exists_row (λ t. is_orphan u t && not (child_of i t.parent_thread_id)) ys ≡ false
unfolding exists_row
rows-Touched i db u [] [] all h k = refl
rows-Touched i db u [] (y ∷ ys) all h k = absurd h
rows-Touched i db u (x ∷ xs) [] all h k = absurd h
rows-Touched i db u (x ∷ xs) (y ∷ ys) all h k = ground (
  arith,
  h.0.live,
  h.0.parent,
  parent-Touched i db u y.parent_thread_id all,
  rows-Touched i db u xs ys all h.1,
)

-- From a tree without orphans, the only orphans after it are the children of `i`.
pub Touched-orphans :
    (i : Text) (db u : Db)
    → Touched i db.threads u.threads
    → exists_row (is_orphan db) db.threads ≡ false
    → exists_row (λ t. is_orphan u t && not (child_of i t.parent_thread_id)) u.threads ≡ false
Touched-orphans i db u h k = rows-Touched i db u db.threads u.threads h h k
