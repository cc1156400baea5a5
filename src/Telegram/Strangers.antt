-- ===== src/Telegram/Strangers.antt =====
-- telegram_bot_listener: updates from strangers, and the survey that /done completes.
use orchestra_threads.Prelude.{
  ℕ, ◌≡◌, refl, Bool, true, false, not, ◌&&◌, Option, none, some, [], Result, ok, err, Exec, ◌>>=◌,
}
use orchestra_threads.Text.{lit}
use orchestra_threads.Dict.{Dict, get}
use orchestra_threads.Json.{Json, cast_json_dict}
use orchestra_threads.Telegram.StateStore.{Fresh}
use orchestra_threads.Telegram.Updates.{
  Settings, World, is_private_chat, is_allowed, extract_user_id, process_callback_query,
  process_message, dispatch, process_update, mark_processed_update, when, given, is_empty_dict,
  callback_identity,
}
use orchestra_threads.Telegram.Polling.{query_of, message_of}

module _ (settings : Settings) where
  -- Who sent an update and in which chat, by its button or else its message.
  abbrev pub sender : Option (Dict Json) → Option (Dict Json) → Option ℕ
  unfolding lit
  sender (some query) message = extract_user_id (get (lit "from") query)
  sender none (some message) = extract_user_id (get (lit "from") message)
  sender none none = none

  abbrev pub chat_of : Option (Dict Json) → Option (Dict Json) → Dict Json
  unfolding lit
  chat_of (some query) message =
      cast_json_dict (get (lit "chat") (cast_json_dict (get (lit "message") query)))
  chat_of none (some message) = cast_json_dict (get (lit "chat") message)
  chat_of none none = []

  -- The update comes from an allowed user in a private chat.
  abbrev pub is_trusted : Dict Json → Bool
  is_trusted update =
      is_allowed settings (sender (query_of settings update) (message_of settings update))
      && is_private_chat settings (chat_of (query_of settings update) (message_of settings update))

  guarded :
      (a b : Bool) (m : Exec World (Unit {0})) (w : World)
      → (a && b) ≡ false
      → (when a (when b m) w ≡ (ok tt, w)) × (when b (when a m) w ≡ (ok tt, w))
  unfolding when
  guarded true true m w h = cc
  guarded true false m w h = (refl, refl)
  guarded false true m w h = (refl, refl)
  guarded false false m w h = (refl, refl)

  given-nothing :
      {A : Type 0} (b : Bool) (o : Option A) (f : A → Exec World (Unit {0})) (w : World)
      → ((a : A) → f a w ≡ (ok tt, w))
      → when b (given o f) w ≡ (ok tt, w)
  unfolding when given
  given-nothing true none f w h = refl
  given-nothing true (some a) f w h = h a
  given-nothing false o f w h = refl

  dispatch-nothing :
      (fresh : Fresh) (query message : Option (Dict Json)) (w : World)
      → (is_allowed settings (sender query message)
          && is_private_chat settings (chat_of query message))
        ≡ false
      → dispatch settings fresh query message w ≡ (ok tt, w)
  unfolding dispatch process_message process_callback_query lit
  dispatch-nothing fresh (some query) message w h =
      given-nothing (not (is_empty_dict (cast_json_dict (get (lit "message") query))))
        (callback_identity settings query) _ w
        λ identity.
          (guarded (is_allowed settings (sender (some query) message))
            (is_private_chat settings (chat_of (some query) message)) _ w h).0
  dispatch-nothing fresh none (some message) w h =
      (guarded (is_allowed settings (sender none (some message)))
        (is_private_chat settings (chat_of none (some message))) _ w h).1
  dispatch-nothing fresh none none w h = refl

  -- An update that does not come from an allowed user in a private chat does nothing but record its
  -- id: no session, transcript entry, published survey or answered button changes, and it raises no
  -- error but that of an unreadable id.
  pub stranger_changes_nothing :
      (fresh : Fresh) (update : Dict Json) (w : World)
      → is_trusted update ≡ false
      → process_update settings fresh update w ≡ mark_processed_update settings update w
  unfolding process_update
  stranger_changes_nothing fresh update w h = marked (mark_processed_update settings update w)
    where
      marked :
          (p : Result (Unit {0}) × World)
          → ◌>>=◌
              (λ (w : World). p)
              (λ _. dispatch settings fresh (query_of settings update) (message_of settings update))
              p.1
            ≡ p
      marked (ok tt, v) =
          dispatch-nothing fresh (query_of settings update) (message_of settings update) v h
      marked (err e, v) = refl
