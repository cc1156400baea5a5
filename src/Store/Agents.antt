-- ===== src/Store/Agents.antt =====
-- store_agents.py
use orchestra_threads.Prelude.{
  ℕ, Bool, false, Option, none, some, List, [], ◌∷◌, ◌++◌, Exec, pure, gets, modify, ◌>>◌,
}
use orchestra_threads.Text.{Text, ◌==◌, text_le}
use orchestra_threads.Sql.{fetchrow, update, order_by}
use orchestra_threads.Rows.{Db, Agent, Metadata, timestamp_within_lease}

abbrev pub has_slug : Text → Agent → Bool
has_slug agent_slug a = a.agent_slug == agent_slug

-- INSERT … ON CONFLICT(agent_slug) DO UPDATE: `registered_at` is kept.
unfoldable pub upsert_agent : Text → Text → Text → Text → Metadata → ℕ → Exec Db Agent
upsert_agent agent_slug display_name event_callback_url stop_callback_url metadata now db =
    elim (fetchrow (has_slug agent_slug) db.agents) [
      | none ↦ (pure inserted) (record db { agents = db.agents ++ inserted ∷ [] })
      | some old ↦
          (pure (refresh old))
            (record db { agents = update (has_slug agent_slug) refresh db.agents })
    ]
  where
    inserted : Agent
    inserted = record {
      agent_slug = agent_slug;
      display_name = display_name;
      event_callback_url = event_callback_url;
      stop_callback_url = stop_callback_url;
      metadata_json = metadata;
      registered_at = now;
      last_seen_at = now;
    }

    refresh : Agent → Agent
    refresh a = record a {
      display_name = display_name;
      event_callback_url = event_callback_url;
      stop_callback_url = stop_callback_url;
      metadata_json = metadata;
      last_seen_at = now;
    }

unfoldable pub get_agent : Db → Text → Option Agent
get_agent db agent_slug = fetchrow (has_slug agent_slug) db.agents

unfoldable pub touch_agent : Text → ℕ → Exec Db (Option Agent)
unfolding get_agent
touch_agent agent_slug now = do
  modify (λ db. record db {
    agents = update (has_slug agent_slug) (λ a. record a { last_seen_at = now }) db.agents;
  })
  gets (λ db. get_agent db agent_slug)

unfoldable pub list_agents : Db → List Agent
list_agents db = order_by (λ a b. text_le a.agent_slug b.agent_slug) db.agents

unfoldable pub is_agent_online : Db → Text → ℕ → ℕ → Bool
unfolding get_agent
is_agent_online db agent_slug lease_seconds now = elim (get_agent db agent_slug) [
  | none ↦ false
  | some agent ↦ timestamp_within_lease (some agent.last_seen_at) lease_seconds now
]
