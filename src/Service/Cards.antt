-- ===== src/Service/Cards.antt =====
-- service/runtime.py: the public card of an agent.
use orchestra_threads.Prelude.{ℕ, Bool, false, Option, none, some, [], if◌then◌else◌}
use orchestra_threads.Text.{Text, lit, ◌==◌, strip, is_empty}
use orchestra_threads.Rows.{Agent, AgentCard, Metadata, no_metadata, timestamp_within_lease}
use orchestra_threads.Service.Config.{Config}

-- `value or fallback` of Python, on texts.
abbrev pub or_text : Text → Text → Text
or_text value fallback = if is_empty value then fallback else value

unfoldable pub agent_metadata : Option Agent → Metadata
agent_metadata none = no_metadata
agent_metadata (some agent) = agent.metadata_json

unfoldable pub metadata_kind : Metadata → Text
unfolding strip
metadata_kind metadata = strip metadata.kind

unfoldable pub agent_type : Metadata → Text → Text
unfolding strip lit ◌==◌
agent_type metadata kind =
    or_text (strip metadata.agent_type)
      (if kind == lit "manual-cli-agent" then lit "manual_cli" else lit "registered")

unfoldable pub backend_type : Metadata → Text → Text
unfolding strip lit
backend_type metadata kind = or_text (strip metadata.backend_type) (or_text kind (lit "unknown"))

unfoldable pub display_name : Text → Text → Text
unfolding strip
display_name shown fallback = or_text (strip (or_text shown fallback)) fallback

abbrev shown_name : Option Agent → Text
shown_name none = []
shown_name (some agent) = agent.display_name

unfoldable pub agent_online : Config → ℕ → Option Agent → Bool
unfolding timestamp_within_lease
agent_online config now none = false
agent_online config now (some agent) =
    timestamp_within_lease (some agent.last_seen_at) config.agent_lease_seconds now

unfoldable pub agent_card_from_record : Config → ℕ → Option Agent → Text → AgentCard
unfolding strip agent_metadata metadata_kind agent_type backend_type display_name agent_online
agent_card_from_record config now agent agent_slug =
    let slug = strip agent_slug in
    let metadata = agent_metadata agent in
    let kind = metadata_kind metadata in
    record {
      slug = slug;
      display_name = display_name (shown_name agent) slug;
      agent_type = agent_type metadata kind;
      backend_type = backend_type metadata kind;
      online = agent_online config now agent;
      metadata = metadata;
      kind = if is_empty kind then none else some kind;
    }
