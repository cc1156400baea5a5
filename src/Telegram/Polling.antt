-- ===== src/Telegram/Polling.antt =====
-- telegram_bot_listener/update_polling.py: updates as runs of the store's operations.
use orchestra_threads.Prelude.{
  ℕ, ◌≡◌, refl, Bool, true, false, Option, none, some, List, [], ◌∷◌, Result, ok, err, Error, Exec,
  ◌>>=◌, ◌>>◌, pure, lift, inl, inr, Bool-cases, eqb, not, if◌then◌else◌,
}
use orchestra_threads.Text.{Text, ◌==◌, lit}
use orchestra_threads.Dict.{Dict, get}
use orchestra_threads.Json.{Json, cast_json_dict, parse_int, optional_json_text}
use orchestra_threads.Telegram.Codec.{or_zero}
use orchestra_threads.Telegram.StateStore.{
  StateStore, Fresh, finish_active_session, record_text_message, record_selection,
}
use orchestra_threads.Telegram.Runs.{Run, stay, after, write, press, finish, mark}
use orchestra_threads.Telegram.Updates.{
  Settings, World, in_store, mark_if, mark_processed_update, publish_survey_finished, posted, when,
  given, finish_done_command, take_text, take_message, process_message, callback_text,
  answer_callback, take_button, process_callback_query, dispatch, process_update, process_updates,
  or_none, dict_of, is_empty_dict, callback_identity, is_allowed, is_private_chat, extract_user_id,
}

module _ (settings : Settings) where
  -- The store after `m` is one that operations reach from the store before it.
  abbrev pub Runs : {A : Type 0} → Exec World A → Type 0
  Runs m = (w : World) → Run settings.python w.store (m w).1.store

  Run-trans :
      {s u v : StateStore}
      → Run settings.python s u
      → Run settings.python u v
      → Run settings.python s v
  Run-trans r stay = r
  Run-trans r (after q k) = after (Run-trans r q) k

  pub continued-Runs :
      {A B : Type 0} (s : StateStore) (p : Result A × World) (f : A → Exec World B)
      → Run settings.python s p.1.store
      → ((a : A) → Runs (f a))
      → Run settings.python s (◌>>=◌ (λ (w : World). p) f p.1).1.store
  continued-Runs s (ok a, w) f r k = Run-trans r (k a w)
  continued-Runs s (err e, w) f r k = r

  bind-Runs :
      {A B : Type 0} (m : Exec World A) (f : A → Exec World B)
      → Runs m
      → ((a : A) → Runs (f a))
      → Runs (m >>= f)
  bind-Runs m f h k w = continued-Runs w.store (m w) f (h w) k

  in_store-Runs :
      {A : Type 0} (m : Exec StateStore A)
      → ((s : StateStore) → Run settings.python s (m s).1)
      → Runs (in_store m)
  unfolding in_store
  in_store-Runs m h w = h w.store

  if-Runs :
      {A : Type 0} (b : Bool) (m n : Exec World A) → Runs m → Runs n → Runs (if b then m else n)
  if-Runs true m n h k = h
  if-Runs false m n h k = k

  when-Runs : (b : Bool) (m : Exec World (Unit {0})) → Runs m → Runs (when b m)
  unfolding when
  when-Runs true m h w = h w
  when-Runs false m h w = stay

  given-Runs :
      {A : Type 0} (o : Option A) (f : A → Exec World (Unit {0}))
      → ((a : A) → Runs (f a))
      → Runs (given o f)
  unfolding given
  given-Runs none f h w = stay
  given-Runs (some a) f h w = h a w

  -- A request to another service does not touch the store.
  posted-Runs :
      (o : Option Error) (f : World → World)
      → ((w : World) → (f w).store ≡ w.store)
      → Runs (posted o f)
  unfolding posted
  posted-Runs none f h w = rw (h w) stay
  posted-Runs (some e) f h w = stay

  mark_if-Runs : (n : ℕ) (s : StateStore) → Run settings.python s (mark_if settings n s).1
  unfolding mark_if
  mark_if-Runs n s = elim (Bool-cases (eqb n 0)) [
    | inl e ↦ rw e stay
    | inr e ↦ rw e (after stay (mark n s))
  ]

  mark-Runs : (update : Dict Json) → Runs (mark_processed_update settings update)
  unfolding mark_processed_update
  mark-Runs update =
      bind-Runs (lift (parse_int settings.python (or_zero (get (lit "update_id") update))))
        (λ n. in_store (mark_if settings n)) (λ w. stay)
        λ n. in_store-Runs (mark_if settings n) (mark_if-Runs n)

  done-Runs :
      (fresh : Fresh) (user chat : ℕ) (text : Text)
      → Runs (finish_done_command settings fresh user chat text)
  unfolding finish_done_command publish_survey_finished
  done-Runs fresh user chat text =
      bind-Runs (in_store (finish_active_session fresh user chat text))
        (λ o. given o (publish_survey_finished settings))
        (in_store-Runs (finish_active_session fresh user chat text)
          λ s. after stay (finish fresh user chat text s))
        λ o.
          given-Runs o (publish_survey_finished settings)
            λ x. posted-Runs (settings.remote.publish_error x) _ λ w. refl

  take_text-Runs :
      (fresh : Fresh) (user chat : ℕ) (text : Text) → Runs (take_text settings fresh user chat text)
  unfolding take_text
  take_text-Runs fresh user chat text =
      if-Runs (text == lit "/done") (finish_done_command settings fresh user chat text)
        (in_store (record_text_message fresh user chat text (lit "text")) >> pure tt)
        (done-Runs fresh user chat text)
        (bind-Runs (in_store (record_text_message fresh user chat text (lit "text"))) (λ _. pure tt)
          (in_store-Runs (record_text_message fresh user chat text (lit "text"))
            λ s. after stay (write fresh user chat text (lit "text") s))
          λ _ w. stay)

  take_message-Runs :
      (fresh : Fresh) (user : ℕ) (chat : Dict Json) (text : Text)
      → Runs (take_message settings fresh user chat text)
  unfolding take_message
  take_message-Runs fresh user chat text =
      bind-Runs (lift (parse_int settings.python (or_none (get (lit "id") chat))))
        (λ id. take_text settings fresh user id text) (λ w. stay)
        λ id. take_text-Runs fresh user id text

  process_message-Runs :
      (fresh : Fresh) (message : Dict Json) → Runs (process_message settings fresh message)
  unfolding process_message
  process_message-Runs fresh message =
      let chat = cast_json_dict (get (lit "chat") message) in
      let user = extract_user_id (get (lit "from") message) in
      let text = optional_json_text settings.python (get (lit "text") message) in
      let take : ℕ → Exec World (Unit {0}) =
        λ id. given text λ t. take_message settings fresh id chat t in
      when-Runs (is_private_chat settings chat) (when (is_allowed settings user) (given user take))
        (when-Runs (is_allowed settings user) (given user take) (
          given-Runs user take λ id.
            given-Runs text (take_message settings fresh id chat)
              (take_message-Runs fresh id chat)))

  take_button-Runs :
      (fresh : Fresh) (user : ℕ) (chat : Dict Json) (identity : Text × Text)
      → Runs (take_button settings fresh user chat identity)
  unfolding take_button answer_callback
  take_button-Runs fresh user chat (callback_id, token) =
      bind-Runs (lift (parse_int settings.python (or_none (get (lit "id") chat))))
        (λ id.
          in_store (record_selection fresh user id token) >>= answer_callback settings callback_id)
        (λ w. stay)
        λ id.
          bind-Runs (in_store (record_selection fresh user id token))
            (answer_callback settings callback_id)
            (in_store-Runs (record_selection fresh user id token)
              λ s. after stay (press fresh user id token s))
            λ r.
              posted-Runs (settings.remote.answer_error callback_id (callback_text settings r)) _
                λ w. refl

  process_callback_query-Runs :
      (fresh : Fresh) (query : Dict Json) → Runs (process_callback_query settings fresh query)
  unfolding process_callback_query
  process_callback_query-Runs fresh query =
      let user = extract_user_id (get (lit "from") query) in
      let message = cast_json_dict (get (lit "message") query) in
      let chat = cast_json_dict (get (lit "chat") message) in
      let press : Text × Text → Exec World (Unit {0}) =
        λ identity. given user λ id. take_button settings fresh id chat identity in
      let guarded : Text × Text → Exec World (Unit {0}) = λ identity.
        when (is_allowed settings user) (when (is_private_chat settings chat) (press identity)) in
      when-Runs (not (is_empty_dict message)) (given (callback_identity settings query) guarded) (
        given-Runs (callback_identity settings query) guarded λ identity.
          when-Runs (is_allowed settings user)
            (when (is_private_chat settings chat) (press identity))
            (when-Runs (is_private_chat settings chat) (press identity) (
              given-Runs user (λ id. take_button settings fresh id chat identity)
                λ id. take_button-Runs fresh id chat identity)))

  pub dispatch-Runs :
      (fresh : Fresh) (query message : Option (Dict Json))
      → Runs (dispatch settings fresh query message)
  unfolding dispatch
  dispatch-Runs fresh (some query) message w = process_callback_query-Runs fresh query w
  dispatch-Runs fresh none (some message) w = process_message-Runs fresh message w
  dispatch-Runs fresh none none w = stay

  -- The objects of an update.
  abbrev pub query_of : Dict Json → Option (Dict Json)
  unfolding lit
  query_of update = dict_of (get (lit "callback_query") update)

  abbrev pub message_of : Dict Json → Option (Dict Json)
  unfolding lit
  message_of update = dict_of (get (lit "message") update)

  -- An update, whatever it holds and whether or not it is processed without an error, changes the
  -- store by operations of the store.
  pub process_update_is_run :
      (fresh : Fresh) (update : Dict Json) (w : World)
      → Run settings.python w.store (process_update settings fresh update w).1.store
  unfolding process_update
  process_update_is_run fresh update =
      bind-Runs (mark_processed_update settings update)
        (λ _. dispatch settings fresh (query_of update) (message_of update)) (mark-Runs update)
        λ _. dispatch-Runs fresh (query_of update) (message_of update)

  pub process_updates-Runs :
      (updates : List (Fresh × Dict Json)) → Runs (process_updates settings updates)
  unfolding process_updates
  process_updates-Runs [] w = stay
  process_updates-Runs ((fresh, update) ∷ updates) w =
      bind-Runs (process_update settings fresh update) (λ _. process_updates settings updates)
        (process_update_is_run fresh update) (λ _. process_updates-Runs updates) w
