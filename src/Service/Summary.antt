-- ===== src/Service/Summary.antt =====
-- service/thread_summary.py, service_shared.message_preview, and the part of service/runtime.py that
-- puts the cards of registered agents into a thread.
use orchestra_threads.Prelude.{
  ℕ, ◌-◌, Bool, false, ◌&&◌, Option, none, some, List, [], ◌∷◌, ◌++◌, length, take, leb, coalesce,
  if◌then◌else◌,
}
use orchestra_threads.Text.{Text, lit, ◌==◌, strip, is_empty, is_space, lstrip_by, non_empty}
use orchestra_threads.Common.{is_terminal}
use orchestra_threads.Rows.{
  Agent, AgentCards, Roles, Scope, root, child, Thread, ThreadEvent, LastEvent, ThreadSummary,
}
use orchestra_threads.Service.Config.{Config}
use orchestra_threads.Service.Cards.{agent_card_from_record}

-- The words of a text behind a first one, each with one space in front; `owed` says that white space
-- has been passed since the last word.
unfoldable pub squeeze : Bool → Text → Text
squeeze owed [] = []
squeeze owed (c ∷ s) =
    let rest = squeeze (is_space c) s in
    if is_space c then rest else if owed then 32 ∷ c ∷ rest else c ∷ rest

-- `" ".join(text.split())`
unfoldable pub join_split : Text → Text
unfolding squeeze
join_split s = squeeze false (lstrip_by is_space s)

abbrev pub message_preview_limit : ℕ
message_preview_limit = 160

unfoldable pub message_preview : Text → ℕ → Text
unfolding join_split
message_preview text limit =
    let normalized = join_split text in
    if leb (length normalized) limit then normalized else take (limit - 3) normalized ++ lit "..."

-- The payload of a thread: its row, the last event where the query joins it, and what
-- `inject_agent_cards` has put in.
pub record ThreadPayload : Type 0 where
  pub thread : Thread
  pub last_event : Option ThreadEvent
  pub agents : Option AgentCards
  pub roles : Option Roles
  pub pair_label : Option Text

abbrev pub plain_payload : Thread → ThreadPayload
plain_payload thread = record {
  thread = thread;
  last_event = none;
  agents = none;
  roles = none;
  pair_label = none;
}

unfoldable pub resolve_peer_agent_slug : Text → Text → Text → Text
resolve_peer_agent_slug owner participant_a participant_b =
    if owner == participant_a
    then participant_b
    else if non_empty owner && owner == participant_b
    then participant_a
    else participant_a

unfoldable pub thread_scope : Thread → Scope
thread_scope t = if t.thread_id == t.root_thread_id then root else child

abbrev pub pair_label_of : AgentCards → Text
pair_label_of cards =
    cards.participant_a.display_name ++ (lit " <-> " ++ cards.participant_b.display_name)

-- An event without an id is passed over.
unfoldable pub attach_last_event : Option ThreadEvent → Option LastEvent
attach_last_event none = none
attach_last_event (some e) =
    if is_empty e.event_id
    then none
    else some (record {
      event_id = e.event_id;
      sequence_no = e.sequence_no;
      event_kind = e.event_kind;
      notification_status = e.notification_status;
      from_agent_slug = e.from_agent_slug;
      to_agent_slug = e.to_agent_slug;
      created_at = e.created_at;
      pending_delivery = e.pending_delivery;
      message_preview = message_preview e.message_text message_preview_limit;
    })

module _ (config : Config) (now : ℕ) where
  abbrev cards_by : (Text → Option Agent) → Text → Text → Text → Text → AgentCards
  cards_by record_of owner a b peer = record {
    owner = agent_card_from_record config now (record_of owner) owner;
    participant_a = agent_card_from_record config now (record_of a) a;
    participant_b = agent_card_from_record config now (record_of b) b;
    peer = agent_card_from_record config now (record_of peer) peer;
  }

  unfoldable pub default_agents : Text → Text → Text → Text → AgentCards
  default_agents = cards_by (λ slug. none)

  unfoldable pub thread_summary : ThreadPayload → ThreadSummary
  unfolding resolve_peer_agent_slug thread_scope attach_last_event default_agents
  thread_summary payload =
      let t = payload.thread in
      let owner = strip t.owner_agent_slug in
      let a = strip t.participant_a_agent_slug in
      let b = strip t.participant_b_agent_slug in
      let peer = resolve_peer_agent_slug owner a b in
      let agents = coalesce payload.agents (default_agents owner a b peer) in
      record {
        thread = t;
        is_terminal = is_terminal t.status;
        thread_scope = thread_scope t;
        agents = agents;
        roles =
            coalesce payload.roles (record { owner_agent_slug = owner; peer_agent_slug = peer });
        pair_label = coalesce payload.pair_label (pair_label_of agents);
        last_event = attach_last_event payload.last_event;
      }

  -- `agents_by_slug`: the records by their stripped slug, empty slugs left out; a later row wins.
  unfoldable pub agents_by_slug : List Agent → Text → Option Agent
  agents_by_slug [] slug = none
  agents_by_slug (agent ∷ rest) slug =
      let later = agents_by_slug rest slug in
      elim later [
        | some found ↦ some found
        | none ↦
            if non_empty (strip agent.agent_slug) && strip agent.agent_slug == slug
            then some agent
            else none
      ]

  unfoldable pub inject_agent_cards : List Agent → ThreadPayload → ThreadPayload
  unfolding resolve_peer_agent_slug agents_by_slug
  inject_agent_cards agents payload =
      let t = payload.thread in
      let owner = strip t.owner_agent_slug in
      let a = strip t.participant_a_agent_slug in
      let b = strip t.participant_b_agent_slug in
      let peer = resolve_peer_agent_slug owner a b in
      let cards = cards_by (agents_by_slug agents) owner a b peer in
      record payload {
        agents = some cards;
        roles = some (record { owner_agent_slug = owner; peer_agent_slug = peer });
        pair_label = some (pair_label_of cards);
      }
