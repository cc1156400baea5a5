-- ===== src/Service/Permissions.antt =====
-- service/runtime.py and service/flows/notification_flow.py: who may write what on which thread.
use orchestra_threads.Prelude.{
  ℕ, ◌≡◌, refl, ap, sym, ◌∙◌, Bool, true, false, ◌&&◌, ◌||◌, none, some, arith, inl, inr,
  Bool-cases, Option-cases, Result-cases, Result, ok, err, Error, service_error, ◌++◌, &&-eq-true,
}
use orchestra_threads.Text.{Text, lit, ◌==◌, strip, eq_iff}
use orchestra_threads.Common.{status_text}
use orchestra_threads.Rows.{Db, Thread, Response}
use orchestra_threads.Requests.{NotificationContext}
use orchestra_threads.Store.Agents.{get_agent}
use orchestra_threads.Store.Query.{get_thread, is_live}
use orchestra_threads.Store.Idempotency.{get_idempotent_result}
use orchestra_threads.Service.Config.{Config}
use orchestra_threads.Service.Routing.{
  validate_routing, thread_peer_agent_slug, ensure_peer_allowed,
}
use orchestra_threads.Service.Notification.{
  allowed_notification_statuses, send_notification_with_lock_context, notification_thread,
  validate_notification_actor,
}

abbrev pub is_ok {ℓ} : {A : Type ℓ} → Result A → Bool
is_ok (ok a) = true
is_ok (err e) = false

-- The two are the participants of the thread, in one order or the other.
abbrev pub are_participants : Thread → Text → Text → Bool
are_participants t from to =
    (strip t.participant_a_agent_slug == from && strip t.participant_b_agent_slug == to)
    || (strip t.participant_b_agent_slug == from && strip t.participant_a_agent_slug == to)

-- Routing lets a sender and a recipient pass exactly if the thread is not terminal and the two are its
-- participants, in either order.
pub validate_routing_lem :
    (t : Thread) (from to : Text)
    → is_ok (validate_routing t from to) ≡ (is_live t && are_participants t from to)
unfolding validate_routing thread_peer_agent_slug
validate_routing_lem t from to = ground (
  arith,
  eq_iff (strip t.participant_a_agent_slug) from,
  eq_iff (strip t.participant_a_agent_slug) to,
  eq_iff (strip t.participant_b_agent_slug) from,
  eq_iff (strip t.participant_b_agent_slug) to,
)

-- A notification with no stored response that is answered without an error comes from an agent that may
-- contact the recipient; the thread is there and not terminal, sender and recipient are its
-- participants, and the status is one that the sender may publish: `in_progress`, `done` or
-- `closed` for the owner, `in_progress` or `review` for the other agent.
pub notification_permitted :
    (config : Config) (event_id : Text) (now : ℕ) (c : NotificationContext) (db u : Db)
    (response : Response)
    → get_idempotent_result db c.from_agent_slug c.client_request_id ≡ none
    → send_notification_with_lock_context config event_id now c db ≡ (ok response, u)
    → (t : Thread) × ((get_thread db c.thread_id ≡ some t)
        × ((is_live t ≡ true)
            × ((are_participants t c.from_agent_slug c.to_agent_slug ≡ true)
                × ((is_ok (
                        ensure_peer_allowed
                          (get_agent db c.from_agent_slug)
                          c.from_agent_slug
                          c.to_agent_slug)
                      ≡ true)
                    × (allowed_notification_statuses c.from_agent_slug
                          (strip t.owner_agent_slug)
                          c.status
                        ≡ true)))))
unfolding send_notification_with_lock_context notification_thread validate_notification_actor
notification_permitted config event_id now c db u response fresh h =
    elim (Result-cases
      (ensure_peer_allowed (get_agent db c.from_agent_slug) c.from_agent_slug c.to_agent_slug)) [
        | inr (e, peer) ↦ absurd (refuse e (rw (fresh, peer) refl))
        | inl (passed, peer) ↦ elim (Option-cases (get_thread db c.thread_id)) [
          | inl e ↦ absurd (
              refuse (service_error 404 (lit "Unknown thread_id: " ++ c.thread_id))
                (rw (fresh, peer, e) refl))
          | inr (t, found) ↦
              elim (Result-cases (validate_routing t c.from_agent_slug c.to_agent_slug)) [
                | inr (e, route) ↦ absurd (refuse e (rw (fresh, peer, found, route) refl))
                | inl (passed, route) ↦
                    let routed : (is_live t && are_participants t c.from_agent_slug c.to_agent_slug)
                        ≡ true =
                      sym (validate_routing_lem t c.from_agent_slug c.to_agent_slug)
                      ∙ ap is_ok route in
                    let (live, participants) = &&-eq-true (is_live t) _ routed in
                    (t, (found, (live, (participants, (ap is_ok peer, status t peer found route)))))
              ]
        ]
      ]
  where
    refuse :
        (e : Error) → send_notification_with_lock_context config event_id now c db ≡ (err e, db) → ⊥
    refuse e k = cc (h, k)

    status :
        (t : Thread)
        → ensure_peer_allowed (get_agent db c.from_agent_slug) c.from_agent_slug c.to_agent_slug
          ≡ ok tt
        → get_thread db c.thread_id ≡ some t
        → validate_routing t c.from_agent_slug c.to_agent_slug ≡ ok tt
        → allowed_notification_statuses c.from_agent_slug (strip t.owner_agent_slug) c.status ≡ true
    status t peer found route =
        elim (Bool-cases
          (allowed_notification_statuses c.from_agent_slug (strip t.owner_agent_slug) c.status)) [
            | inl k ↦ k
            | inr k ↦ absurd (
                refuse
                  (service_error 409 (
                    c.from_agent_slug
                    ++ (lit " cannot publish "
                        ++ (status_text c.status ++ (lit " on thread " ++ c.thread_id)))))
                  (rw (fresh, peer, found, route, k) refl))
          ]
