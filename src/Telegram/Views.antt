-- ===== src/Telegram/Views.antt =====
-- telegram_bot_listener/state_store_parts/history.py: what a view of the history shows.
use orchestra_threads.Prelude.{
  ℕ, zero, suc, ◌-◌, min, max, ◌≡◌, refl, ap, sym, ◌∙◌, true, Option, none, some, List, [], ◌∷◌,
  ◌++◌, inl, inr, Bool-cases, arith, length, All, eqb, eqb_iff,
}
use mathlib.Core.Option
use orchestra_threads.Text.{Text, is_empty}
use orchestra_threads.Text.Decimal.{str_int, str_int_inj}
use orchestra_threads.Sql.Laws.{All-select, All-select-true}
use orchestra_threads.Dict.{get}
use orchestra_threads.Json.{Python}
use orchestra_threads.Telegram.Models.{SurveySession, TranscriptEntry, ListenerState}
use orchestra_threads.Telegram.History.{
  HistoryViewRequest, of_user, of_session, matching_entries, user_owned_session,
  active_view_session, resolve_view_session, drop, history_view,
}
use orchestra_threads.Telegram.StateStore.{StateStore, empty_store}
use orchestra_threads.Telegram.Invariant.{empty-IsConsistent}
use orchestra_threads.Telegram.Runs.{Run, Run-Consistent, Consistent}

module _ {A : Type 0} where
  -- What is dropped stands before what is kept.
  drop-suffix : (n : ℕ) (xs : List A) → (earlier : List A) × (xs ≡ earlier ++ drop n xs)
  unfolding drop
  drop-suffix zero xs = ([], refl)
  drop-suffix (suc n) [] = ([], refl)
  drop-suffix (suc n) (x ∷ xs) =
      let (earlier, e) = drop-suffix n xs in (x ∷ earlier, ap (λ ys. x ∷ ys) e)

  length-drop : (n : ℕ) (xs : List A) → length (drop n xs) ≡ length xs - n
  unfolding drop
  length-drop zero xs = omega arith
  length-drop (suc n) [] = omega arith
  length-drop (suc n) (x ∷ xs) = omega (arith, length-drop n xs)

  All-drop : (P : A → Type 0) (n : ℕ) (xs : List A) → All P xs → All P (drop n xs)
  unfolding drop
  All-drop P zero xs h = h
  All-drop P (suc n) [] h = tt
  All-drop P (suc n) (x ∷ xs) h = All-drop P n xs h.1

-- An entry that a view may show.
abbrev pub Shown : ℕ → TranscriptEntry → Type 0
Shown user e = of_user user e ≡ true

matching-Shown :
    (s : ListenerState) (user : ℕ) (session_id : Option Text)
    → All (Shown user) (matching_entries s user session_id)
unfolding matching_entries
matching-Shown s user none = All-select-true (Shown user) (of_user user) (λ e h. h) s.transcript
matching-Shown s user (some i) =
    All-select (Shown user) (of_session i) _
      (All-select-true (Shown user) (of_user user) (λ e h. h) s.transcript)

-- Only a session of the user is shown.
owned :
    (o : Option SurveySession) (user : ℕ) (x : SurveySession)
    → user_owned_session o user ≡ some x
    → x.telegram_user_id ≡ user
unfolding user_owned_session
owned none user x h = absurd (cc h)
owned (some y) user x h = elim (Bool-cases (eqb y.telegram_user_id user)) [
  | inl e ↦
      ap (λ (z : SurveySession). z.telegram_user_id) (sym (Option.some_inj.0 (rw e at h)))
      ∙ (eqb_iff _ _).0 e
  | inr e ↦ absurd (cc (rw e at h))
]

active_owned :
    (s : ListenerState) (user : ℕ) (x : SurveySession)
    → Consistent s
    → active_view_session s user ≡ some x
    → x.telegram_user_id ≡ user
unfolding active_view_session
active_owned s user x c h =
    let (key, names, found) = (Option.bind-eq-some_iff _ _).0 h in
    let (y, at, status, owner) = c.named (str_int user) key names in
    let same : y ≡ x = Option.some_inj.0 (sym at ∙ found) in
    str_int_inj x.telegram_user_id user
      (ap (λ (z : SurveySession). str_int z.telegram_user_id) (sym same) ∙ owner)

shown :
    (s : ListenerState) (session_id : Option Text) (user : ℕ) (x : SurveySession)
    → Consistent s
    → resolve_view_session s user session_id ≡ some x
    → x.telegram_user_id ≡ user
unfolding resolve_view_session
shown s none user x c h = active_owned s user x c h
shown s (some i) user x c h = elim (Bool-cases (is_empty i)) [
  | inl e ↦ active_owned s user x c (rw (e, resolve_view_session) at h)
  | inr e ↦ owned (get i s.sessions) user x (rw (e, resolve_view_session) at h)
]

-- In a state that operations reach from the empty one, a view of a user's history shows the latest of
-- the matching entries: `limit` of them (one when `limit` is 0), or all when there are fewer; they are
-- entries of that user, and the session that is shown is a session of that user, even if the id of
-- another user's session is asked for.
pub history_view_is_own :
    {python : Python} {store : StateStore} (r : HistoryViewRequest)
    → Run python empty_store store
    → let view = history_view store.state r in
      (length view.entries
        ≡ min
            (max 1 r.limit)
            (length (matching_entries store.state r.telegram_user_id r.session_id)))
      × All (Shown r.telegram_user_id) view.entries
      × ((earlier : List TranscriptEntry) × (matching_entries store.state r.telegram_user_id
              r.session_id
            ≡ earlier ++ view.entries))
      × ((x : SurveySession) → view.session ≡ some x → x.telegram_user_id ≡ r.telegram_user_id)
unfolding history_view
history_view_is_own {store = store} r run =
    let entries = matching_entries store.state r.telegram_user_id r.session_id in
    let start = length entries - max 1 r.limit in
    (
      omega (arith, length-drop start entries),
      All-drop (Shown r.telegram_user_id) start entries
          (matching-Shown store.state r.telegram_user_id r.session_id),
      drop-suffix start entries,
      λ x h.
          shown store.state r.session_id r.telegram_user_id x
            (Run-Consistent run empty-IsConsistent) h,
    )
