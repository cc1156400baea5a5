-- ===== src/Telegram/Change.antt =====
-- telegram_bot_listener/state_store.py: the five ways in which an operation changes the state.
use orchestra_threads.Prelude.{
  ℕ, ◌≤◌, ◌≡◌, refl, ap, ◌∙◌, sym, Option, none, some, List, [], ◌∷◌, ◌++◌, arith, inl, inr,
  Bool-cases, Option-cases, ok,
}
use mathlib.Core.Option
use mathlib.Core.List.{append-nil}
use orchestra_threads.Text.{Text, is_empty}
use orchestra_threads.Text.Decimal.{str_int}
use orchestra_threads.Dict.{Dict, get, put, pop}
use orchestra_threads.Json.{Python}
use orchestra_threads.Telegram.Models.{
  SurveySession, TranscriptEntry, ListenerState, CallbackAction,
}
use orchestra_threads.Telegram.Sessions.{
  SessionCreateRequest, new_session, active_status, create_session, active_session, session_at,
  session_for_append, ensure_no_active_session,
}
use orchestra_threads.Telegram.History.{append_entry}
use orchestra_threads.Telegram.StateStore.{
  StateStore, Fresh, OutboundMessage, completed, create_survey_session, set_last_update_id,
  record_outbound_message, record_text_message, record_selection, finish_active_session, pressed,
  answered, recorded_outbound, persist, select_option, finish_session,
}
use orchestra_threads.Telegram.RoundTrip.{session_round}

-- Entries are added at the end of the transcript, and the last update does not go back.
pub record Grows (s u : ListenerState) : Type 0 where
  pub more : List TranscriptEntry
  pub transcript : u.transcript ≡ s.transcript ++ more
  pub last_update_id : s.last_update_id ≤ u.last_update_id

pub data Change : ListenerState → ListenerState → Type 0 where
  noted :
      {s u : ListenerState}
      → Grows s u
      → u.sessions ≡ s.sessions
      → u.active_session_by_user ≡ s.active_session_by_user
      → Change s u
  sent :
      {s u : ListenerState} (key : Text) (x : SurveySession) (ids : List ℕ)
      → Grows s u
      → get key s.sessions ≡ some x
      → u.sessions ≡ put key (record x { outbound_message_ids = ids }) s.sessions
      → u.active_session_by_user ≡ s.active_session_by_user
      → Change s u
  chosen :
      {s u : ListenerState} (user key : Text) (x : SurveySession) (answers : Dict (List Text))
      → Grows s u
      → get user s.active_session_by_user ≡ some key
      → get key s.sessions ≡ some x
      → u.sessions ≡ put key (record x { answers = answers }) s.sessions
      → u.active_session_by_user ≡ s.active_session_by_user
      → Change s u
  finished :
      {s u : ListenerState} (user key now : Text) (x : SurveySession)
      → Grows s u
      → get user s.active_session_by_user ≡ some key
      → get key s.sessions ≡ some x
      → u.sessions ≡ put key (completed now x) s.sessions
      → u.active_session_by_user ≡ pop user s.active_session_by_user
      → Change s u
  created :
      {s u : ListenerState} (x : SurveySession)
      → Grows s u
      → x.status ≡ active_status
      → x.completed_at ≡ none
      → get x.session_id s.sessions ≡ none
      → get (str_int x.telegram_user_id) s.active_session_by_user ≡ none
      → u.sessions ≡ put x.session_id x s.sessions
      → u.active_session_by_user
        ≡ put (str_int x.telegram_user_id) x.session_id s.active_session_by_user
      → Change s u

same :
    (s u : ListenerState)
    → u.transcript ≡ s.transcript
    → s.last_update_id ≤ u.last_update_id
    → Grows s u
same s u h k = record {
  more = [];
  transcript = h ∙ sym (append-nil s.transcript);
  last_update_id = k;
}

session_at-some :
    (s : ListenerState) (key k : Text) (x : SurveySession)
    → session_at s key ≡ some (k, x)
    → (key ≡ k) × (get k s.sessions ≡ some x)
unfolding session_at
session_at-some s key k x h =
    let (y, found, e) = (Option.bind-eq-some_iff _ _).0 h in
    let e' : (key, y) ≡ (k, x) = Option.some_inj.0 e in
    let keys : key ≡ k = ap (λ (p : Text × SurveySession). p.0) e' in
    let sessions : y ≡ x = ap (λ (p : Text × SurveySession). p.1) e' in
    (keys, ap (λ i. get i s.sessions) (sym keys) ∙ found ∙ ap some sessions)

pub active_session-some :
    (s : ListenerState) (user : ℕ) (key : Text) (x : SurveySession)
    → active_session s user ≡ some (key, x)
    → (get (str_int user) s.active_session_by_user ≡ some key) × (get key s.sessions ≡ some x)
unfolding active_session
active_session-some s user key x h =
    let (k, found, e) = (Option.bind-eq-some_iff _ _).0 h in
    let (e', at) = session_at-some s k key x e in (found ∙ ap some e', at)

session_for_append-some :
    (s : ListenerState) (user : ℕ) (sid : Option Text) (key : Text) (x : SurveySession)
    → session_for_append s user sid ≡ some (key, x)
    → get key s.sessions ≡ some x
unfolding session_for_append
session_for_append-some s user none key x h = (active_session-some s user key x h).1
session_for_append-some s user (some i) key x h = elim (Bool-cases (is_empty i)) [
  | inl e ↦ (active_session-some s user key x (rw (e, session_for_append) at h)).1
  | inr e ↦ (session_at-some s i key x (rw (e, session_for_append) at h)).1
]

added :
    (s u : ListenerState) (e : TranscriptEntry)
    → u.transcript ≡ s.transcript ++ e ∷ []
    → s.last_update_id ≡ u.last_update_id
    → Grows s u
added s u e h k = record { more = e ∷ []; transcript = h; last_update_id = omega arith }

pub set_last_update_id-Change :
    (store : StateStore) (n : ℕ) → Change store.state (set_last_update_id n store).1.state
unfolding set_last_update_id persist
set_last_update_id-Change store n = noted (same _ _ refl (omega arith)) refl refl

module _ (fresh : Fresh) (store : StateStore) where
  pub record_text_message-Change :
      (user chat : ℕ) (text kind : Text)
      → Change store.state (record_text_message fresh user chat text kind store).1.state
  unfolding record_text_message append_entry persist
  record_text_message-Change user chat text kind = noted (added _ _ _ refl refl) refl refl

  recorded-Change :
      (m : OutboundMessage) (o : Option (Text × SurveySession))
      → session_for_append store.state m.telegram_user_id m.session_id ≡ o
      → Change store.state (recorded_outbound fresh m o store.state)
  unfolding recorded_outbound append_entry
  recorded-Change m none h = noted (added _ _ _ refl refl) refl refl
  recorded-Change m (some (key, x)) h =
      sent key x _ (added _ _ _ refl refl)
        (session_for_append-some store.state m.telegram_user_id m.session_id key x h) refl refl

  pub record_outbound_message-Change :
      (m : OutboundMessage) → Change store.state (record_outbound_message fresh m store).1.state
  unfolding record_outbound_message persist
  record_outbound_message-Change m = recorded-Change m _ refl

  pub pressed-some :
      (user : ℕ) (token : Text) (key : Text) (x : SurveySession) (a : CallbackAction)
      → pressed store.state user token ≡ some (key, x, a)
      → (active_session store.state user ≡ some (key, x)) × (get token x.callback_actions ≡ some a)
  unfolding pressed
  pressed-some user token key x a h =
      let ((k, y), found, e) = (Option.bind-eq-some_iff _ _).0 h in
      let (b, at, e') = (Option.bind-eq-some_iff _ _).0 e in
      let p : (k, y, b) ≡ (key, x, a) = Option.some_inj.0 e' in
      let keys : k ≡ key = ap (λ (t : Text × SurveySession × CallbackAction). t.0) p in
      let sessions : y ≡ x = ap (λ (t : Text × SurveySession × CallbackAction). t.1) p in
      let actions : b ≡ a = ap (λ (t : Text × SurveySession × CallbackAction). t.2) p in
      (
        found ∙ λ i. some (keys i, sessions i),
        ap (λ (z : SurveySession). get token z.callback_actions) (sym sessions)
            ∙ at
            ∙ ap some actions,
      )

  selected :
      (user chat : ℕ) (token : Text) (key : Text) (x : SurveySession) (a : CallbackAction)
      → pressed store.state user token ≡ some (key, x, a)
      → Change store.state (select_option fresh user chat key x a store).1.state
  unfolding select_option append_entry answered persist
  selected user chat token key x a e =
      let (active, at) = pressed-some user token key x a e in
      let (found, held) = active_session-some store.state user key x active in
      chosen (str_int user) key x _ (added _ _ _ refl refl) found held refl refl

  pub record_selection-Change :
      (user chat : ℕ) (token : Text)
      → Change store.state (record_selection fresh user chat token store).1.state
  unfolding record_selection
  record_selection-Change user chat token = elim (Option-cases (pressed store.state user token)) [
    | inl e ↦ rw (e, record_selection) (noted (same _ _ refl (omega arith)) refl refl)
    | inr ((key, x, a), e) ↦ rw (e, record_selection) (selected user chat token key x a e)
  ]

  finish_session-Change :
      (user chat : ℕ) (text : Text) (o : Option (Text × SurveySession))
      → active_session store.state user ≡ o
      → Change store.state (finish_session fresh user chat text o store).1.state
  unfolding finish_session append_entry persist
  finish_session-Change user chat text none h = noted (added _ _ _ refl refl) refl refl
  finish_session-Change user chat text (some (key, x)) h =
      let (found, held) = active_session-some store.state user key x h in
      finished (str_int user) key fresh.now x (added _ _ _ refl refl) found held refl refl

  pub finish_active_session-Change :
      (user chat : ℕ) (text : Text)
      → Change store.state (finish_active_session fresh user chat text store).1.state
  unfolding finish_active_session
  finish_active_session-Change user chat text = finish_session-Change user chat text _ refl

pub create_session_lem :
    (python : Python) (token : ℕ → Text) (session_id now : Text) (r : SessionCreateRequest)
    → create_session python token session_id now r ≡ ok (new_session token session_id now r)
unfolding create_session
create_session_lem python token session_id now r =
    session_round python (new_session token session_id now r) tt

-- The id of the session is new: `uuid4` does not repeat.
pub create_survey_session-Change :
    (python : Python) (fresh : Fresh) (r : SessionCreateRequest) (store : StateStore)
    → get fresh.session_id store.state.sessions ≡ none
    → Change store.state (create_survey_session python fresh r store).1.state
unfolding create_survey_session ensure_no_active_session persist
create_survey_session-Change python fresh r store new =
    elim (Option-cases (get (str_int r.telegram_user_id) store.state.active_session_by_user)) [
      | inr (key, e) ↦
          rw (e, create_survey_session, ensure_no_active_session)
            (noted (same _ _ refl (omega arith)) refl refl)
      | inl e ↦
          rw
            (
              e,
              create_session_lem python fresh.token fresh.session_id fresh.now r,
              create_survey_session,
              ensure_no_active_session,
            )
            (created (new_session fresh.token fresh.session_id fresh.now r)
              (same _ _ refl (omega arith)) refl refl new e refl refl)
    ]
