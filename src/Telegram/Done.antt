-- ===== src/Telegram/Done.antt =====
-- telegram_bot_listener/update_state_interactions.py: /done completes a survey.
use mathlib.Core.List.{append-nil}
use orchestra_threads.Prelude.{
  sym, List, ◌>>=◌, ℕ, ◌≡◌, refl, ap, ◌∙◌, Option, none, some, [], ◌∷◌, ◌++◌, ok, Error,
}
use orchestra_threads.Text.{Text, lit, eq_refl}
use orchestra_threads.Text.Decimal.{str_int}
use orchestra_threads.Dict.{get-pop}
use orchestra_threads.Telegram.Models.{SurveySession}
use orchestra_threads.Telegram.Sessions.{active_session}
use orchestra_threads.Telegram.History.{append_entry}
use orchestra_threads.Telegram.StateStore.{
  StateStore, Fresh, completed, finish_active_session, finish_session, persist,
}
use orchestra_threads.Telegram.Updates.{
  Settings, World, in_store, finish_done_command, publish_survey_finished, posted, given,
}

-- Whatever /done finds, the user has no open session afterwards.
after_finish :
    (fresh : Fresh) (user chat : ℕ) (command : Text) (o : Option (Text × SurveySession))
    (s : StateStore)
    → active_session s.state user ≡ o
    → active_session (finish_session fresh user chat command o s).1.state user ≡ none
unfolding finish_session append_entry persist active_session
after_finish fresh user chat command none s h = h
after_finish fresh user chat command (some (key, x)) s h =
    rw
      (get-pop (str_int user) (str_int user) s.state.active_session_by_user, eq_refl (str_int user))
      refl

finished-ok :
    (fresh : Fresh) (user chat : ℕ) (command : Text) (o : Option (Text × SurveySession))
    → (s : StateStore)
    → (x : Option SurveySession) × ((finish_session fresh user chat command o s).0 ≡ ok x)
unfolding finish_session append_entry persist
finished-ok fresh user chat command none s = (none, refl)
finished-ok fresh user chat command (some (key, x)) s = (_, refl)

module _ (settings : Settings) where
  -- Publishing does not touch the store.
  published-store :
      (o : Option SurveySession) (w : World)
      → (given o (publish_survey_finished settings) w).1.store ≡ w.store
  unfolding given publish_survey_finished
  published-store none w = refl
  published-store (some x) w = posted-store (settings.remote.publish_error x)
    where
      posted-store :
          (o : Option Error)
          → (posted o (λ (w : World). record w { published = w.published ++ x ∷ [] }) w).1.store
            ≡ w.store
      posted-store none = refl
      posted-store (some e) = refl

  done-store :
      (fresh : Fresh) (user chat : ℕ) (command : Text) (w : World)
      → (finish_done_command settings fresh user chat command w).1.store
        ≡ (finish_active_session fresh user chat command w.store).1
  unfolding finish_done_command in_store finish_active_session
  done-store fresh user chat command w =
      let o = active_session w.store.state user in
      let (x, e) = finished-ok fresh user chat command o w.store in
      rw e (
        published-store x
          (record w { store = (finish_session fresh user chat command o w.store).1 }))

  -- A /done of a user publishes nothing and raises nothing if the user has no open session.
  idle-done :
      (fresh : Fresh) (user chat : ℕ) (command : Text) (w : World)
      → active_session w.store.state user ≡ none
      → ((finish_done_command settings fresh user chat command w).0 ≡ ok tt)
        × ((finish_done_command settings fresh user chat command w).1.published ≡ w.published)
  unfolding finish_done_command in_store finish_active_session finish_session append_entry persist
      given
  idle-done fresh user chat command w h = rw h (refl, refl)

  -- What a /done publishes of the open session that it finds, if it finds one.
  abbrev pub sent_of : SurveySession → Option Error → List SurveySession
  sent_of x none = x ∷ []
  sent_of x (some e) = []

  published_by :
      (x : SurveySession) (w : World)
      → (publish_survey_finished settings x w).1.published
        ≡ w.published ++ sent_of x (settings.remote.publish_error x)
  unfolding publish_survey_finished
  published_by x w = by_reply (settings.remote.publish_error x)
    where
      by_reply :
          (o : Option Error)
          → (posted o (λ (v : World). record v { published = v.published ++ x ∷ [] }) w).1.published
            ≡ w.published ++ sent_of x o
      by_reply none = refl
      by_reply (some e) = sym (append-nil w.published)

  abbrev pub sent : Text → Option (Text × SurveySession) → List SurveySession
  unfolding lit
  sent now none = []
  sent now (some (key, session)) =
      let x : SurveySession = record session {
        status = lit "completed";
        completed_at = some now;
      } in
      sent_of x (settings.remote.publish_error x)

  done-published :
      (fresh : Fresh) (user chat : ℕ) (command : Text) (w : World)
      → (finish_done_command settings fresh user chat command w).1.published
        ≡ w.published ++ sent fresh.now (active_session w.store.state user)
  unfolding finish_done_command in_store finish_active_session
  done-published fresh user chat command w = by_session (active_session w.store.state user)
    where
      by_session :
          (o : Option (Text × SurveySession))
          → ((in_store (finish_session fresh user chat command o) >>= λ session.
                given session (publish_survey_finished settings))
              w).1.published
            ≡ w.published ++ sent fresh.now o
      by_session none = sym (append-nil w.published)
      by_session (some (key, x)) = published_by (completed fresh.now x) _

  -- A /done of a user publishes the user's open session, completed and once, if there is one and the events
  -- engine takes it, and otherwise nothing; a second /done directly after it publishes nothing and
  -- raises nothing, also if the first one could not be published.
  pub second_done_publishes_nothing :
      (fresh next : Fresh) (user chat chat' : ℕ) (command command' : Text) (w : World)
      → let v = (finish_done_command settings fresh user chat command w).1 in
        (v.published ≡ w.published ++ sent fresh.now (active_session w.store.state user))
        × ((finish_done_command settings next user chat' command' v).0 ≡ ok tt)
        × ((finish_done_command settings next user chat' command' v).1.published ≡ v.published)
  unfolding finish_active_session
  second_done_publishes_nothing fresh next user chat chat' command command' w =
      let idle =
        idle-done next user chat' command'
          (finish_done_command settings fresh user chat command w).1
          (ap (λ (s : StateStore). active_session s.state user)
              (done-store fresh user chat command w)
            ∙ after_finish fresh user chat command (active_session w.store.state user) w.store
                refl) in
      (done-published fresh user chat command w, idle.0, idle.1)
