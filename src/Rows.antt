-- ===== src/Rows.antt =====
-- The rows of the four tables of core/orchestra_thread (the columns that its statements name), the
-- store, and the payloads that the service returns and keeps for a repeated request.
-- Timestamps are microseconds. NULL is `none`; a key that a JSON object lacks is `none` or "".
use orchestra_threads.Prelude.{ℕ, ◌*◌, ◌+◌, Bool, false, Option, none, some, List, [], leb}
use orchestra_threads.Text.{Text}
use orchestra_threads.Common.{Status}

-- agents.metadata_json: the keys that the service reads. `allowed_peer_agent_slugs` is `none` where
-- the value is missing or no list.
pub record Metadata : Type 0 where
  pub kind : Text
  pub agent_type : Text
  pub backend_type : Text
  pub allowed_peer_agent_slugs : Option (List Text)

abbrev pub no_metadata : Metadata
no_metadata = record {
  kind = [];
  agent_type = [];
  backend_type = [];
  allowed_peer_agent_slugs = none;
}

pub record Agent : Type 0 where
  pub agent_slug : Text
  pub display_name : Text
  pub event_callback_url : Text
  pub stop_callback_url : Text
  pub metadata_json : Metadata
  pub registered_at : ℕ
  pub last_seen_at : ℕ

pub record Thread : Type 0 where
  pub thread_id : Text
  pub root_thread_id : Text
  pub parent_thread_id : Option Text
  pub owner_agent_slug : Text
  pub participant_a_agent_slug : Text
  pub participant_b_agent_slug : Text
  pub status : Status
  pub last_sequence_no : ℕ
  pub last_message_sender_agent_slug : Option Text
  pub last_activity_at : Option ℕ
  pub last_inactivity_event_at : Option ℕ
  pub created_at : ℕ
  pub updated_at : ℕ
  pub terminal_at : Option ℕ

pub data EventKind : Type 0 where
  message notification inactive : EventKind

pub record ThreadEvent : Type 0 where
  pub event_id : Text
  pub thread_id : Text
  pub sequence_no : ℕ
  pub event_kind : EventKind
  pub notification_status : Option Status
  pub from_agent_slug : Text
  pub to_agent_slug : Text
  pub message_text : Text
  pub interrupts_runtime : Bool
  pub requires_response : Bool
  pub pending_delivery : Bool
  pub delivery_attempt_count : ℕ
  pub next_delivery_attempt_at : Option ℕ
  pub delivered_at : Option ℕ
  pub last_delivery_error : Option Text
  pub created_at : ℕ

-- What `agent_card_from_record` gives for one agent.
pub record AgentCard : Type 0 where
  pub slug : Text
  pub display_name : Text
  pub agent_type : Text
  pub backend_type : Text
  pub online : Bool
  pub metadata : Metadata
  pub kind : Option Text

pub record AgentCards : Type 0 where
  pub owner : AgentCard
  pub participant_a : AgentCard
  pub participant_b : AgentCard
  pub peer : AgentCard

pub record Roles : Type 0 where
  pub owner_agent_slug : Text
  pub peer_agent_slug : Text

pub data Scope : Type 0 where
  root child : Scope

-- The part of an event that a thread summary shows.
pub record LastEvent : Type 0 where
  pub event_id : Text
  pub sequence_no : ℕ
  pub event_kind : EventKind
  pub notification_status : Option Status
  pub from_agent_slug : Text
  pub to_agent_slug : Text
  pub created_at : ℕ
  pub pending_delivery : Bool
  pub message_preview : Text

pub record ThreadSummary : Type 0 where
  pub thread : Thread
  pub is_terminal : Bool
  pub thread_scope : Scope
  pub agents : AgentCards
  pub roles : Roles
  pub pair_label : Text
  pub last_event : Option LastEvent

-- The response of `send_message` (with `created_thread`) and of `send_notification` (without).
pub record Response : Type 0 where
  pub operation : EventKind
  pub created_thread : Option Bool
  pub thread : ThreadSummary
  pub event : ThreadEvent

pub record IdempotencyKey : Type 0 where
  pub from_agent_slug : Text
  pub client_request_id : Text
  pub operation_name : EventKind
  pub response_json : Response
  pub created_at : ℕ

pub record Db : Type 0 where
  pub agents : List Agent
  pub idempotency_keys : List IdempotencyKey
  pub threads : List Thread
  pub thread_events : List ThreadEvent

abbrev pub empty_db : Db
empty_db = record { agents = []; idempotency_keys = []; threads = []; thread_events = [] }

-- `timedelta(seconds=n)`
abbrev pub seconds : ℕ → ℕ
seconds n = n * 1_000_000

-- store_clock.py: `now - value <= timedelta(seconds=lease_seconds)`, and false of no value. The sum
-- is the same test over the naturals, also where `value` lies in the future.
unfoldable pub timestamp_within_lease : Option ℕ → ℕ → ℕ → Bool
timestamp_within_lease none lease_seconds now = false
timestamp_within_lease (some value) lease_seconds now = leb now (value + seconds lease_seconds)
