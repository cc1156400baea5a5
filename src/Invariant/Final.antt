-- ===== src/Invariant/Final.antt =====
-- A terminal status is final.
use orchestra_threads.Prelude.{
  ◌≡◌, refl, ap, ◌∙◌, sym, Bool, true, Option, none, some, List, [], ◌∷◌, arith, inl, inr,
  Bool-cases, All, All-append, All-both, is_some, not, ◌&&◌,
}
use mathlib.Core.Option
use orchestra_threads.Text.{Text, ◌==◌, eq→path}
use orchestra_threads.Common.{is_terminal}
use orchestra_threads.Sql.{fetchrow, update}
use orchestra_threads.Sql.Laws.{
  fetchrow-append, fetchrow-update, fetchrow-true, All-update, All-update_to,
}
use orchestra_threads.Rows.{Db, Thread}
use orchestra_threads.Store.Query.{has_id, get_thread, is_live}
use orchestra_threads.Store.Events.{EventInsertRequest, updated_thread}
use orchestra_threads.Store.Notifications.{terminated}
use orchestra_threads.Change
use orchestra_threads.Invariant.Keys.{IsKeyed, Sole, only_row}

-- The row `t'` has the status, the end and the last number of `t`.
pub record SameEnd (t t' : Thread) : Type 0 where
  pub status : t'.status ≡ t.status
  pub terminal_at : t'.terminal_at ≡ t.terminal_at
  pub number : t'.last_sequence_no ≡ t.last_sequence_no

abbrev pub EndsAs : Thread → Option Thread → Type 0
EndsAs t none = ⊥
EndsAs t (some t') = SameEnd t t'

pub SameEnd-refl : (t : Thread) → SameEnd t t
SameEnd-refl t = record { status = refl; terminal_at = refl; number = refl }

-- An UPDATE that leaves the ids alone, at a row that it does not change or changes harmlessly.
updated-EndsAs :
    (threads : List Thread) (p : Thread → Bool) (f : Thread → Thread) (thread_id : Text)
    (t : Thread)
    → ((x : Thread) → (f x).thread_id ≡ x.thread_id)
    → fetchrow (has_id thread_id) threads ≡ some t
    → (p t ≡ true → SameEnd t (f t))
    → EndsAs t (fetchrow (has_id thread_id) (update p f threads))
updated-EndsAs threads p f thread_id t ids found step =
    rw
      (fetchrow-update (has_id thread_id) p f (λ x. ap (λ (i : Text). i == thread_id) (ids x))
        threads)
      (rw found (elim (Bool-cases (p t)) [ inl e ↦ rw e (step e) | inr e ↦ rw e (SameEnd-refl t) ]))

-- The thread of an appended event is live, so it is not the terminal one.
appended-EndsAs :
    (db : Db) (r : EventInsertRequest) (x t : Thread) (thread_id : Text)
    → Change.IsNext db r x
    → get_thread db thread_id ≡ some t
    → is_terminal t.status ≡ true
    → EndsAs t (get_thread (Change.with_event r db) thread_id)
unfolding get_thread updated_thread
appended-EndsAs db r x t thread_id n found k =
    updated-EndsAs db.threads (has_id r.thread_id) (updated_thread r) thread_id t (λ u. refl) found
      λ hit.
        let same : thread_id ≡ r.thread_id =
          sym (eq→path t.thread_id thread_id (fetchrow-true (has_id thread_id) db.threads found))
          ∙ eq→path t.thread_id r.thread_id hit in
        let twice : some t ≡ some x =
          sym found ∙ ap (λ i. fetchrow (has_id i) db.threads) same ∙ n.found in
        absurd (clash x t n.live k (Option.some_inj.0 twice))
  where
    clash : (x t : Thread) → is_live x ≡ true → is_terminal t.status ≡ true → t ≡ x → ⊥
    clash x t live k e = cc (live, ap not (ap (λ (u : Thread). is_terminal u.status) e), ap not k)

-- No change touches the status, the end or the last number of a thread that is terminal.
pub Change-EndsAs :
    {db u : Db} (thread_id : Text) (t : Thread)
    → Change.Change db u
    → get_thread db thread_id ≡ some t
    → is_terminal t.status ≡ true
    → EndsAs t (get_thread u thread_id)
unfolding get_thread
Change-EndsAs thread_id t (Change.aside e k) found h = rw (e, found) (SameEnd-refl t)
Change-EndsAs {db} thread_id t (Change.created x n e) found h =
    rw (e, fetchrow-append, found) (SameEnd-refl t)
Change-EndsAs {db} thread_id t (Change.appended r x n c l e) found h =
    rw e (appended-EndsAs db r x t thread_id n found h)
Change-EndsAs {db} thread_id t (Change.finished r x reason n c l q e) found h =
    rw e (appended-EndsAs db r x t thread_id n found h)
Change-EndsAs {db} thread_id t (Change.closed i s now reason k e) found h = rw e (
    unfold terminated in
    updated-EndsAs db.threads _ _ thread_id t (λ u. refl) found λ hit. absurd (live_not t i hit h))
  where
    live_not :
        (t : Thread) (i : Text) → (has_id i t && is_live t) ≡ true → is_terminal t.status ≡ true → ⊥
    live_not t i hit h = ground arith
Change-EndsAs thread_id t (Change.redelivered p f k e) found h = rw (e, found) (SameEnd-refl t)
Change-EndsAs {db} thread_id t (Change.touched p f k e) found h = rw e (
    updated-EndsAs db.threads p f thread_id t k.thread_id found
      λ hit. record { status = k.status t; terminal_at = k.terminal_at t; number = k.number t })

-- `terminal_at` is set exactly on terminal threads.
abbrev pub Timed : Thread → Type 0
Timed t = is_some t.terminal_at ≡ is_terminal t.status

abbrev pub IsTimed : Db → Type 0
IsTimed db = All Timed db.threads

Timed-updated :
    (r : EventInsertRequest) (t : Thread)
    → Change.Coherent r
    → is_live t ≡ true
    → Timed t
    → Timed (updated_thread r t)
unfolding updated_thread
Timed-updated r t c live h = ground arith

appended-IsTimed :
    (db : Db) (r : EventInsertRequest) (t : Thread)
    → Change.IsNext db r t
    → Change.Coherent r
    → IsKeyed db
    → IsTimed db
    → IsTimed (Change.with_event r db)
unfolding get_thread
appended-IsTimed db r t n c d h =
    All-update_to (λ x. Timed x × Sole r.thread_id t x) Timed (has_id r.thread_id)
      (updated_thread r)
      (λ x hit (timed, sole). Timed-updated r x c (ap is_live (sole hit) ∙ n.live) timed)
      (λ x miss (timed, sole). timed) db.threads
      (All-both Timed (Sole r.thread_id t) db.threads h
        (only_row db.threads r.thread_id t d n.found))

-- Every change keeps `terminal_at` in step with the status.
pub Change-IsTimed : {db u : Db} → Change.Change db u → IsKeyed db → IsTimed db → IsTimed u
unfolding terminated
Change-IsTimed (Change.aside e k) d h = rw e h
Change-IsTimed {db} (Change.created t n e) d h =
    rw e (All-append Timed db.threads (t ∷ []) h (rw (n.running, n.status) refl, tt))
Change-IsTimed {db} (Change.appended r t n c l e) d h = rw e (appended-IsTimed db r t n c d h)
Change-IsTimed {db} (Change.finished r t reason n c l q e) d h =
    rw e (appended-IsTimed db r t n c d h)
Change-IsTimed {db} (Change.closed i s now reason k e) d h =
    rw e (All-update Timed _ _ (λ x hit timed. sym k) db.threads h)
Change-IsTimed (Change.redelivered p f k e) d h = rw e h
Change-IsTimed {db} (Change.touched p f k e) d h =
    rw e (All-update Timed p f (λ x hit timed. rw (k.terminal_at x, k.status x) timed) db.threads h)
