-- ===== src/Store/Retries.antt =====
-- store_delivery.py: which events a delivery pass takes, and when an event that failed is tried again.
use orchestra_threads.Prelude.{
  ℕ, zero, suc, ◌+◌, ◌-◌, ◌*◌, ◌^◌, ◌≤◌, ◌≡◌, refl, true, false, arith, min, max, All, All-take,
  All-map, All-both, some, List, [], ◌∷◌, Option-cases, length, length-take, leb, inl, inr,
  Bool-cases, ◌⊎◌, leb→le,
}
use native.Mathlib.Numerals.{unary_clauses}
use orchestra_threads.Rows.{Db, ThreadEvent}
use orchestra_threads.Sql.{select, order_by}
use orchestra_threads.Sql.Laws.{All-order_by, All-select, All-select-true}
use orchestra_threads.Sql.Sorting.{Among}
use orchestra_threads.Store.Agents.{get_agent}
use orchestra_threads.Store.Delivery.{
  DueEvent, is_due, due_at, joined, due_earlier, list_due_pending_events, retry_delay_seconds,
}
use orchestra_threads.Store.Query.{is_live, get_thread}

min_le : (m x : ℕ) → min m x ≤ m
min_le m x = omega arith

min_mono : (m x y : ℕ) → x ≤ y → min m x ≤ min m y
min_mono m x y h = omega arith

doubled : (base x : ℕ) → base * x ≤ base * (x * 2)
doubled zero x = omega arith
doubled (suc base) x = omega (arith, doubled base x)

-- One more attempt: the exponent grows by one or stays.
capped : (n : ℕ) → min (n + 11 - 1) 10 ≡ 10
capped n = omega arith

both : (k : ℕ) → leb 10 k ≡ true → min (suc k) 10 ≡ min k 10
both k h = omega (arith, leb→le 10 k h)

low : (k : ℕ) → leb 10 k ≡ false → min k 10 ≡ k
low k h = ground arith

high : (k : ℕ) → leb 10 k ≡ false → min (suc k) 10 ≡ suc k
high k h = ground arith

exponent_step : (n base : ℕ) → base * 2 ^ min (n - 1) 10 ≤ base * 2 ^ min (n + 1 - 1) 10
exponent_step n base = by_size (n - 1) (n + 1 - 1) (omega arith) (Bool-cases (leb 10 (n - 1)))
  where
    by_size :
        (k l : ℕ)
        → (l ≡ k) ⊎ (l ≡ suc k)
        → (leb 10 k ≡ true) ⊎ (leb 10 k ≡ false)
        → base * 2 ^ min k 10 ≤ base * 2 ^ min l 10
    by_size k l (inl e) size = rw e (omega arith)
    by_size k l (inr e) (inl size) = rw (e, both k size) (omega arith)
    by_size k l (inr e) (inr size) =
        rw (e, low k size, high k size) (simp unary_clauses (doubled base (2 ^ k)))

-- The delay before the next attempt never exceeds `retry_max_seconds`, does not shrink from one failed
-- attempt to the next, is the base delay (or the maximum) after the first failure, and is constant
-- from the eleventh on.
pub retry_delay_lem :
    (n base most : ℕ)
    → (retry_delay_seconds n base most ≤ most)
      × ((retry_delay_seconds n base most ≤ retry_delay_seconds (n + 1) base most)
          × ((retry_delay_seconds 1 base most ≡ min most base)
              × (retry_delay_seconds (n + 11) base most ≡ retry_delay_seconds 11 base most)))
unfolding retry_delay_seconds
retry_delay_lem n base most = (
  min_le most (base * 2 ^ min (n - 1) 10),
  (
    min_mono most (base * 2 ^ min (n - 1) 10) (base * 2 ^ min (n + 1 - 1) 10)
        (exponent_step n base),
    (omega arith, rw (capped n) refl),
  ),
)

-- A row of the join is an event of the store with its own thread and the agent that it is sent to.
abbrev pub Joins : Db → List ThreadEvent → DueEvent → Type 0
Joins db events d =
    Among d.event events
    × (get_thread db d.event.thread_id ≡ some d.thread)
    × (d.agent ≡ get_agent db d.event.to_agent_slug)

joined-Joins : (db : Db) (es : List ThreadEvent) → All (Joins db es) (joined db es)
unfolding joined
joined-Joins db [] = tt
joined-Joins db (e ∷ es) =
    let rest : All (Joins db (e ∷ es)) (joined db es) =
      All-map (Joins db es) (Joins db (e ∷ es)) (joined db es) (λ d h. (inr h.0, h.1, h.2))
        (joined-Joins db es) in
    elim (Option-cases (get_thread db e.thread_id)) [
      | inl k ↦ rw (k, joined) rest
      | inr (t, k) ↦ rw (k, joined) ((inl refl, k, refl), rest)
    ]

-- A delivery query gives at most `limit` events (one, if `limit` is 0). Each is an event of the store, given
-- with its own thread and the agent that it is sent to; it waits for delivery, its thread is in the
-- store and is not terminal, and it is due.
pub due_events_lem :
    (db : Db) (now limit : ℕ)
    → (length (list_due_pending_events db now limit) ≤ max 1 limit)
      × All
          (λ d.
            Joins db db.thread_events d
            × ((d.event.pending_delivery ≡ true)
                × ((is_live d.thread ≡ true) × (due_at d.event ≤ now))))
          (list_due_pending_events db now limit)
unfolding list_due_pending_events
due_events_lem db now limit = (
  omega (
    arith,
    length-take (max 1 limit)
        (order_by due_earlier (select (is_due now) (joined db db.thread_events))),
  ),
  All-take _ (max 1 limit) _ (
      All-order_by _ due_earlier _ (
        All-both (Joins db db.thread_events) _ _
          (All-select (Joins db db.thread_events) (is_due now) _ (joined-Joins db db.thread_events))
          (All-select-true _ (is_due now) (λ d h. ground arith) (joined db db.thread_events)))),
)
