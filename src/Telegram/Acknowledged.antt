-- ===== src/Telegram/Acknowledged.antt =====
-- telegram_bot_listener/update_polling.py: the offset of the next poll is beyond what was processed.
use orchestra_threads.Prelude.{
  ℕ, ◌<◌, ◌≡◌, refl, subst, List, [], ◌∷◌, Result, ok, err, Error, Exec, ◌>>=◌, inl, inr,
  Bool-cases, eqb, arith, All, Result-cases,
}
use orchestra_threads.Text.{lit}
use orchestra_threads.Dict.{Dict, get}
use orchestra_threads.Json.{Json, parse_int}
use orchestra_threads.Telegram.Codec.{or_zero}
use orchestra_threads.Telegram.StateStore.{StateStore, Fresh, set_last_update_id, persist}
use orchestra_threads.Telegram.Runs.{Run, stay, append_only}
use orchestra_threads.Telegram.Updates.{
  Settings, World, in_store, mark_if, mark_processed_update, dispatch, process_update,
  process_updates, next_offset,
}
use orchestra_threads.Telegram.Polling.{
  continued-Runs, dispatch-Runs, process_updates-Runs, query_of, message_of,
}

-- A sequence that succeeds is one whose parts do.
continued-ok :
    {A B : Type 0} {b : B} (p : Result A × World) (f : A → Exec World B) (v : World)
    → ◌>>=◌ (λ (w : World). p) f p.1 ≡ (ok b, v)
    → (a : A) × (p.0 ≡ ok a) × (f a p.1 ≡ (ok b, v))
continued-ok (ok a, w) f v h = (a, refl, h)
continued-ok (err e, w) f v h = absurd (cc h)

module _ (settings : Settings) where
  -- `parse_int(update.get("update_id", 0) or 0)`
  abbrev pub update_id : Dict Json → Result ℕ
  unfolding lit
  update_id update = parse_int settings.python (or_zero (get (lit "update_id") update))

  marked : (n : ℕ) (s : StateStore) → n < next_offset (mark_if settings n s).1
  unfolding mark_if next_offset set_last_update_id persist
  marked n s = elim (Bool-cases (eqb n 0)) [
    | inl e ↦ rw e (ground (arith, e))
    | inr e ↦ rw e (omega arith)
  ]

  later :
      (n : ℕ) (s u : StateStore) → Run settings.python s u → n < next_offset s → n < next_offset u
  unfolding next_offset
  later n s u r h = omega (arith, (append_only r).last_update_id)

  -- An update with a readable id is never fetched again, whether its processing succeeds or fails: the
  -- offset of the next poll is beyond its id.
  pub processed_is_acknowledged :
      (fresh : Fresh) (update : Dict Json) (n : ℕ) (w : World)
      → update_id update ≡ ok n
      → n < next_offset (process_update settings fresh update w).1.store
  unfolding process_update mark_processed_update in_store lit
  processed_is_acknowledged fresh update n w h = rw h (
      later n (mark_if settings n w.store).1 _
        (continued-Runs settings (mark_if settings n w.store).1
          ((mark_if settings n w.store).0, record w { store = (mark_if settings n w.store).1 })
          (λ _. dispatch settings fresh (query_of settings update) (message_of settings update))
          stay
          (λ _.
            dispatch-Runs settings fresh (query_of settings update) (message_of settings update)))
        (marked n w.store))

  unreadable :
      (fresh : Fresh) (update : Dict Json) (e : Error) (w : World)
      → update_id update ≡ err e
      → process_update settings fresh update w ≡ (err e, w)
  unfolding process_update mark_processed_update lit
  unreadable fresh update e w h = rw h refl

  readable :
      (fresh : Fresh) (update : Dict Json) (w : World) (a : Unit {0})
      → (process_update settings fresh update w).0 ≡ ok a
      → (n : ℕ) × (update_id update ≡ ok n)
  readable fresh update w a h = elim (Result-cases (update_id update)) [
    | inl (n, e) ↦ (n, e)
    | inr (e, k) ↦ absurd (cc (h, unreadable fresh update e w k))
  ]

  abbrev pub Acknowledged : StateStore → Fresh × Dict Json → Type 0
  Acknowledged s (fresh, update) = (n : ℕ) × (update_id update ≡ ok n) × (n < next_offset s)

  -- When a batch of updates is processed to its end, each of them has a readable id, and the offset of the
  -- next poll is beyond all of these ids.
  pub batch_is_polled_once :
      (updates : List (Fresh × Dict Json)) (w v : World)
      → process_updates settings updates w ≡ (ok tt, v)
      → All (Acknowledged v.store) updates
  unfolding process_updates
  batch_is_polled_once [] w v h = tt
  batch_is_polled_once ((fresh, update) ∷ updates) w v h =
      let (a, done, rest) =
        continued-ok (process_update settings fresh update w)
          (λ _. process_updates settings updates) v h in
      let (n, read) = readable fresh update w a done in
      (
        (
          n,
          read,
          subst (λ (p : Result (Unit {0}) × World). n < next_offset p.1.store) rest
              (later n _ _
                (process_updates-Runs settings updates (process_update settings fresh update w).1)
                (processed_is_acknowledged fresh update n w read)),
        ),
        batch_is_polled_once updates (process_update settings fresh update w).1 v rest,
      )
