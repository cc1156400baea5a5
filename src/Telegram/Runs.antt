-- ===== src/Telegram/Runs.antt =====
-- telegram_bot_listener/state_store.py: runs of changes from the empty state.
use orchestra_threads.Prelude.{
  ℕ, ◌≡◌, refl, ap, ◌∙◌, sym, true, none, some, List, [], ◌++◌, ◌⊎◌, inl, inr, is_some, arith,
}
use mathlib.Core.Option
use mathlib.Core.List.{append-nil, append_assoc}
use orchestra_threads.Text.{Text, lit}
use orchestra_threads.Text.Decimal.{str_int}
use orchestra_threads.Dict.{Dict, get}
use orchestra_threads.Telegram.Models.{SurveySession, ListenerState}
use orchestra_threads.Telegram.Sessions.{active_status, completed_status}
use orchestra_threads.Json.{Python}
use orchestra_threads.Telegram.Sessions.{SessionCreateRequest}
use orchestra_threads.Telegram.StateStore.{
  StateStore, Fresh, OutboundMessage, create_survey_session, set_last_update_id,
  record_outbound_message, record_text_message, record_selection, finish_active_session,
  empty_store,
}
use orchestra_threads.Telegram.Change.{
  create_survey_session-Change, set_last_update_id-Change, record_outbound_message-Change,
  record_text_message-Change, record_selection-Change, finish_active_session-Change,
}
use orchestra_threads.Telegram.Change.{Change, noted, sent, chosen, finished, created, Grows}
use orchestra_threads.Telegram.Invariant.{
  IsConsistent, empty-IsConsistent, edited-IsConsistent, created-IsConsistent,
  finished-IsConsistent,
}

-- One operation of the store. The id of a new session is new: `uuid4` does not repeat.
pub data Step (python : Python) : StateStore → StateStore → Type 0 where
  create :
      (fresh : Fresh) (r : SessionCreateRequest) (store : StateStore)
      → get fresh.session_id store.state.sessions ≡ none
      → Step python store (create_survey_session python fresh r store).1
  outbound :
      (fresh : Fresh) (m : OutboundMessage) (store : StateStore)
      → Step python store (record_outbound_message fresh m store).1
  write :
      (fresh : Fresh) (user chat : ℕ) (text kind : Text) (store : StateStore)
      → Step python store (record_text_message fresh user chat text kind store).1
  press :
      (fresh : Fresh) (user chat : ℕ) (token : Text) (store : StateStore)
      → Step python store (record_selection fresh user chat token store).1
  finish :
      (fresh : Fresh) (user chat : ℕ) (command : Text) (store : StateStore)
      → Step python store (finish_active_session fresh user chat command store).1
  mark :
      (update_id : ℕ) (store : StateStore)
      → Step python store (set_last_update_id update_id store).1

pub data Run (python : Python) : StateStore → StateStore → Type 0 where
  stay : {s : StateStore} → Run python s s
  after : {s u v : StateStore} → Run python s u → Step python u v → Run python s v

pub Step-Change : {python : Python} {s u : StateStore} → Step python s u → Change s.state u.state
Step-Change {python} (create fresh r store new) =
    create_survey_session-Change python fresh r store new
Step-Change (outbound fresh m store) = record_outbound_message-Change fresh store m
Step-Change (write fresh user chat text kind store) =
    record_text_message-Change fresh store user chat text kind
Step-Change (press fresh user chat token store) =
    record_selection-Change fresh store user chat token
Step-Change (finish fresh user chat command store) =
    finish_active_session-Change fresh store user chat command
Step-Change (mark update_id store) = set_last_update_id-Change store update_id

abbrev pub Consistent : ListenerState → Type 0
Consistent s = IsConsistent s.sessions s.active_session_by_user

Change-Consistent : {s u : ListenerState} → Change s u → Consistent s → Consistent u
Change-Consistent (noted g e f) c = rw (e, f) c
Change-Consistent (sent key x ids g found e f) c =
    rw (e, f)
      (edited-IsConsistent _ _ c key x _ found
        (record { session_id = refl; user = refl; status = refl; completed_at = refl }))
Change-Consistent (chosen user key x answers g names found e f) c =
    rw (e, f)
      (edited-IsConsistent _ _ c key x _ found
        (record { session_id = refl; user = refl; status = refl; completed_at = refl }))
Change-Consistent (finished user key now x g names found e f) c =
    rw (e, f) (finished-IsConsistent _ _ c user key now x names found)
Change-Consistent (created x g status unset new free e f) c =
    rw (e, f) (created-IsConsistent _ _ c x status unset new free)

pub Run-Consistent :
    {python : Python} {s u : StateStore} → Run python s u → Consistent s.state → Consistent u.state
Run-Consistent stay c = c
Run-Consistent (after r k) c = Change-Consistent (Step-Change k) (Run-Consistent r c)

not_both : active_status ≡ completed_status → ⊥
unfolding lit
not_both h = cc (h)

-- In a state that operations reach from the empty one, two open sessions of one user are the same,
-- and it is the session that the user's entry names.
pub one_active_session :
    {python : Python} {store : StateStore} (j k : Text) (x y : SurveySession)
    → Run python empty_store store
    → get j store.state.sessions ≡ some x
    → get k store.state.sessions ≡ some y
    → x.status ≡ active_status
    → y.status ≡ active_status
    → x.telegram_user_id ≡ y.telegram_user_id
    → (j ≡ k) × (get (str_int x.telegram_user_id) store.state.active_session_by_user ≡ some j)
one_active_session {store = store} j k x y r fx fy ax ay same =
    let c = Run-Consistent r empty-IsConsistent in
    let at = named_by j x ((c.fate j x fx).1) ax in
    let at' = named_by k y ((c.fate k y fy).1) ay in
    (
      Option.some_inj.0
          (sym at ∙ ap (λ i. get (str_int i) store.state.active_session_by_user) same ∙ at'),
      at,
    )
  where
    named_by :
        (key : Text) (z : SurveySession)
        → (((z.status ≡ active_status)
              × (z.completed_at ≡ none)
              × (get (str_int z.telegram_user_id) store.state.active_session_by_user ≡ some key))
            ⊎ ((z.status ≡ completed_status) × (is_some z.completed_at ≡ true)))
        → z.status ≡ active_status
        → get (str_int z.telegram_user_id) store.state.active_session_by_user ≡ some key
    named_by key z (inl (a, o, at)) h = at
    named_by key z (inr (d, o)) h = absurd (not_both (sym h ∙ d))

-- The session with its outcome as it is, and other numbers of messages sent about it.
abbrev pub KeptIn : Text → SurveySession → Dict SurveySession → Type 0
KeptIn key x sessions =
    (ids : List ℕ) × (get key sessions ≡ some (record x { outbound_message_ids = ids }))

Change-Grows : {s u : ListenerState} → Change s u → Grows s u
Change-Grows (noted g e f) = g
Change-Grows (sent k y ids g found e f) = g
Change-Grows (chosen user k y answers g names found e f) = g
Change-Grows (finished user k now y g names found e f) = g
Change-Grows (created y g status unset new free e f) = g

Grows-trans : {s u v : ListenerState} → Grows s u → Grows u v → Grows s v
Grows-trans {s} a b = record {
  more = a.more ++ b.more;
  transcript =
      b.transcript ∙ ap (λ t. t ++ b.more) a.transcript ∙ append_assoc s.transcript a.more b.more;
  last_update_id = omega (arith, a.last_update_id, b.last_update_id);
}

-- Through every run, the transcript only grows at its end, and the last update id does not go back.
pub append_only : {python : Python} {s u : StateStore} → Run python s u → Grows s.state u.state
append_only {s = s} stay = record {
  more = [];
  transcript = sym (append-nil s.state.transcript);
  last_update_id = omega arith;
}
append_only (after r k) = Grows-trans (append_only r) (Change-Grows (Step-Change k))
