-- ===== src/Service/Agents/Online.antt =====
-- Registered agents, and agents that have sent a heartbeat, are online.
use orchestra_threads.Prelude.{
  ℕ, ◌+◌, ◌≤◌, ◌≡◌, refl, Bool, true, false, Option, none, some, arith, inl, inr, Bool-cases,
  Option-cases, Result-cases, Result, ok, err, service_error, Error, pure, ◌>>=◌,
}
use mathlib.Core.Option
use orchestra_threads.Text.{Text, lit, is_empty, strip, eq_refl}
use orchestra_threads.Sql.{fetchrow}
use orchestra_threads.Sql.Laws.{fetchrow-append, fetchrow-update, fetchrow-true}
use orchestra_threads.Rows.{Db, Agent, Metadata, seconds, timestamp_within_lease}
use orchestra_threads.Store.Agents.{upsert_agent, get_agent, has_slug, is_agent_online}
use orchestra_threads.Service.Config.{Config}
use orchestra_threads.Service.Cards.{display_name}
use orchestra_threads.Service.Agents.{
  RegisterPayload, CallbackUrls, AgentView, agent_view, required_agent_slug, resolve_callback_urls,
  register_agent,
}

-- The agent of that slug was seen at `now`.
SeenAt : Text → ℕ → Db → Type 0
SeenAt slug now db = Option.map (λ (a : Agent). a.last_seen_at) (get_agent db slug) ≡ some now

online_lem :
    (slug : Text) (now later lease : ℕ) (db : Db)
    → SeenAt slug now db
    → later ≤ now + seconds lease
    → is_agent_online db slug lease later ≡ true
unfolding is_agent_online SeenAt timestamp_within_lease
online_lem slug now later lease db seen soon = by (get_agent db slug) seen
  where
    by :
        (o : Option Agent)
        → Option.map (λ (a : Agent). a.last_seen_at) o ≡ some now
        → (elim o as (λ _. Bool) [
          | none ↦ false
          | some agent ↦ timestamp_within_lease (some agent.last_seen_at) lease later
        ])
          ≡ true
    by none h = absurd (cc h)
    by (some a) h = ground (arith, Option.some_inj.0 h)

upsert-SeenAt :
    (slug name event_url stop_url : Text) (metadata : Metadata) (now : ℕ) (db : Db)
    → SeenAt slug now (upsert_agent slug name event_url stop_url metadata now db).1
unfolding SeenAt upsert_agent get_agent
upsert-SeenAt slug name event_url stop_url metadata now db =
    elim (Option-cases (fetchrow (has_slug slug) db.agents)) [
      | inl e ↦ rw (e, upsert_agent) (rw (fetchrow-append, e, eq_refl slug) refl)
      | inr (old, e) ↦
          let refresh : Agent → Agent = λ a. record a {
            display_name = name;
            event_callback_url = event_url;
            stop_callback_url = stop_url;
            metadata_json = metadata;
            last_seen_at = now;
          } in
          rw (e, upsert_agent)
            (rw
              (
                fetchrow-update (has_slug slug) (has_slug slug) refresh (λ a. refl) db.agents,
                e,
                fetchrow-true (has_slug slug) db.agents e,
              )
              refl)
    ]

-- An agent whose registration is answered without an error is online, under its stripped slug, until
-- the lease has passed.
pub registered_is_online :
    (config : Config) (now later : ℕ) (payload : RegisterPayload) (view : AgentView) (db : Db)
    → (register_agent config now payload db).0 ≡ ok view
    → later ≤ now + seconds config.agent_lease_seconds
    → is_agent_online
        (register_agent config now payload db).1
        (strip payload.agent_slug)
        config.agent_lease_seconds
        later
      ≡ true
unfolding register_agent required_agent_slug
registered_is_online config now later payload view db h soon =
    elim (Bool-cases (is_empty (strip payload.agent_slug))) [
      | inl e ↦ absurd (refuse (service_error 400 (lit "agent_slug is required")) (rw e refl))
      | inr e ↦ elim (Result-cases (resolve_callback_urls payload)) [
        | inr (x, k) ↦ absurd (refuse x (rw (e, k) refl))
        | inl (urls, k) ↦
            rw (e, k)
              (online_lem (strip payload.agent_slug) now later config.agent_lease_seconds
                (((λ (u : Db). out urls) >>= (λ agent. pure (agent_view config now agent))) db).1
                (pass (out urls) (seen urls)) soon)
      ]
    ]
  where
    refuse : (x : Error) → (register_agent config now payload db).0 ≡ err x → ⊥
    refuse x k = cc (h, k)

    out : CallbackUrls → Result Agent × Db
    out urls =
        upsert_agent (strip payload.agent_slug)
          (display_name payload.shown_name (strip payload.agent_slug)) urls.event_callback_url
          urls.stop_callback_url payload.metadata now db

    seen : (urls : CallbackUrls) → SeenAt (strip payload.agent_slug) now (out urls).1
    seen urls =
        upsert-SeenAt (strip payload.agent_slug)
          (display_name payload.shown_name (strip payload.agent_slug)) urls.event_callback_url
          urls.stop_callback_url payload.metadata now db

    pass :
        (o : Result Agent × Db)
        → SeenAt (strip payload.agent_slug) now o.1
        → SeenAt
            (strip payload.agent_slug)
            now
            (((λ (u : Db). o) >>= (λ agent. pure (agent_view config now agent))) db).1
    pass (ok a, u) k = k
    pass (err x, u) k = k
