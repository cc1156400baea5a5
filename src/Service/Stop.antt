-- ===== src/Service/Stop.antt =====
-- service/runtime.py, `notify_stop`: the stop callback of an agent. Whether the request succeeds is
-- only logged, so the call is modelled by the requests that it makes: one, or none.
use orchestra_threads.Prelude.{ℕ, Option, none, some, List, [], ◌∷◌, if◌then◌else◌}
use orchestra_threads.Text.{Text, strip, is_empty}
use orchestra_threads.Rows.{Db, timestamp_within_lease}
use orchestra_threads.Store.Agents.{get_agent}
use orchestra_threads.Service.Config.{Config}

-- The JSON of the callback; a notification has no `parent_thread_id`.
pub record StopPayload : Type 0 where
  pub thread_id : Text
  pub parent_thread_id : Option Text
  pub reason : Text

pub record StopPost : Type 0 where
  pub url : Text
  pub payload : StopPayload

unfoldable pub notify_stop : Config → ℕ → Db → Text → StopPayload → List StopPost
unfolding strip
notify_stop config now db agent_slug payload = elim (get_agent db agent_slug) [
  | none ↦ []
  | some agent ↦
      if timestamp_within_lease (some agent.last_seen_at) config.agent_lease_seconds now
      then if is_empty (strip agent.stop_callback_url)
        then []
        else record { url = strip agent.stop_callback_url; payload = payload } ∷ []
      else []
]
