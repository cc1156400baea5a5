-- ===== src/Service/Agents.antt =====
-- service/runtime.py: registration, heartbeat and status of agents.
pub mod Online
use orchestra_threads.Prelude.{
  ℕ, Bool, ◌||◌, Option, none, some, List, [], ◌++◌, map, Exec, Result, ok, err, pure, lift, gets,
  check, or_raise, not, service_error, ◌>>=◌, ◌>>◌, is_some, if◌then◌else◌,
}
use mathlib.Core.Option
use orchestra_threads.Text.{Text, lit, strip, rstrip_slash, is_empty}
use orchestra_threads.Rows.{Db, Agent, Metadata, timestamp_within_lease}
use orchestra_threads.Store.Agents.{upsert_agent, touch_agent, get_agent}
use orchestra_threads.Store.Agents
use orchestra_threads.Store.Query.{get_agent_busy_thread}
use orchestra_threads.Service.Config.{Config}
use orchestra_threads.Service.Cards.{display_name}

-- The keys of the JSON that is posted; a key that is missing is the empty text.
pub record RegisterPayload : Type 0 where
  pub agent_slug : Text
  pub shown_name : Text
  pub event_callback_url : Text
  pub stop_callback_url : Text
  pub base_url : Text
  pub metadata : Metadata

pub record CallbackUrls : Type 0 where
  pub event_callback_url : Text
  pub stop_callback_url : Text

pub record AgentView : Type 0 where
  pub agent : Agent
  pub online : Bool

pub record AgentStatus : Type 0 where
  pub agent_slug : Text
  pub online : Bool
  pub busy : Bool
  pub current_thread_id : Option Text

unfoldable pub required_agent_slug : Text → Result Text
unfolding strip
required_agent_slug raw =
    let agent_slug = strip raw in
    if is_empty agent_slug
    then err (service_error 400 (lit "agent_slug is required"))
    else ok agent_slug

-- A URL that is not given is made of the base URL, if there is one.
abbrev url_or : Text → Text → Text → Text
url_or url base path =
    if is_empty url then if is_empty base then url else rstrip_slash base ++ path else url

unfoldable pub resolve_callback_urls : RegisterPayload → Result CallbackUrls
unfolding strip
resolve_callback_urls payload =
    let base = strip payload.base_url in
    let event_url = url_or (strip payload.event_callback_url) base (lit "/event") in
    let stop_url = url_or (strip payload.stop_callback_url) base (lit "/stop") in
    if is_empty event_url || is_empty stop_url
    then err (service_error 400 (lit "base_url or both callback URLs are required"))
    else ok (record { event_callback_url = event_url; stop_callback_url = stop_url })

module _ (config : Config) (now : ℕ) where
  unfoldable pub agent_view : Agent → AgentView
  agent_view agent = record {
    agent = agent;
    online = timestamp_within_lease (some agent.last_seen_at) config.agent_lease_seconds now;
  }

  unfoldable pub register_agent : RegisterPayload → Exec Db AgentView
  unfolding agent_view
  register_agent payload = do
    agent_slug ← lift (required_agent_slug payload.agent_slug)
    urls ← lift (resolve_callback_urls payload)
    agent ←
        upsert_agent agent_slug (display_name payload.shown_name agent_slug) urls.event_callback_url
          urls.stop_callback_url payload.metadata now
    pure (agent_view agent)

  unfoldable pub heartbeat : Text → Exec Db AgentView
  unfolding agent_view
  heartbeat raw = do
    agent_slug ← lift (required_agent_slug raw)
    found ← touch_agent agent_slug now
    agent ← or_raise (service_error 404 (lit "Unknown agent: " ++ agent_slug)) found
    pure (agent_view agent)

  unfoldable pub list_agents : Db → List AgentView
  unfolding agent_view
  list_agents db = map agent_view (Agents.list_agents db)

  unfoldable pub get_agent_status : Text → Exec Db AgentStatus
  get_agent_status agent_slug = do
    found ← gets (λ db. get_agent db agent_slug)
    agent ← or_raise (service_error 404 (lit "Unknown agent: " ++ agent_slug)) found
    busy_thread ← gets (λ db. get_agent_busy_thread db agent_slug)
    pure (record {
      agent_slug = agent_slug;
      online = timestamp_within_lease (some agent.last_seen_at) config.agent_lease_seconds now;
      busy = is_some busy_thread;
      current_thread_id = Option.map (λ t. t.thread_id) busy_thread;
    })
