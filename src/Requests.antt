-- ===== src/Requests.antt =====
-- service_message_requests.py and service_notification_requests.py: what a caller sends, how it is
-- cleaned, and what is refused before the store is read.
pub mod Checks
use orchestra_threads.Prelude.{
  ℕ, Bool, true, false, ◌&&◌, ◌||◌, not, Option, none, some, List, [], ◌∷◌, ◌++◌, Result, ok, err,
  service_error, if◌then◌else◌,
}
use orchestra_threads.Text.{Text, lit, ◌==◌, strip, is_empty, non_empty}
use orchestra_threads.Common.{
  Status, is_terminal, is_notification, is_delivered_notification, normalize_status, parse_status,
  normalize_text_input,
}

pub record MessageRequestInput : Type 0 where
  pub from_agent_slug : Text
  pub to_agent_slug : Text
  pub message_text : Text
  pub thread_id : Option Text
  pub parent_thread_id : Option Text
  pub client_request_id : Text

-- The dict `MessageRequest` has the same keys.
abbrev pub MessageRequest : Type 0
MessageRequest = MessageRequestInput

unfoldable pub optional_text : Option Text → Option Text
optional_text none = none
optional_text (some raw) = let value = strip raw in if is_empty value then none else some value

unfoldable pub validate_message_request : MessageRequest → Result (Unit {0})
validate_message_request r =
    if is_empty r.from_agent_slug || is_empty r.to_agent_slug
    then err (service_error 400 (lit "from_agent_slug and to_agent_slug are required"))
    else if r.from_agent_slug == r.to_agent_slug
    then err (service_error 400 (lit "agent cannot send a thread message to itself"))
    else if is_empty r.message_text
    then err (service_error 400 (lit "message_text is required"))
    else ok tt

abbrev pub valid_or : {A : Type 0} → A → Result (Unit {0}) → Result A
valid_or a (ok u) = ok a
valid_or a (err e) = err e

unfoldable pub message_request_context : MessageRequest → MessageRequest
unfolding optional_text
message_request_context r = record r {
  thread_id = optional_text r.thread_id;
  parent_thread_id = optional_text r.parent_thread_id;
}

pub record NotificationRequestInput : Type 0 where
  pub from_agent_slug : Text
  pub to_agent_slug : Text
  pub thread_id : Text
  pub status : Text
  pub message_text : Text
  pub client_request_id : Text

-- The request and its context: `requires_delivery` and `is_terminal` are read off `status`.
pub record NotificationContext : Type 0 where
  pub thread_id : Text
  pub from_agent_slug : Text
  pub to_agent_slug : Text
  pub status : Status
  pub message_text : Text
  pub requires_delivery : Bool
  pub is_terminal : Bool
  pub client_request_id : Text

-- The status that `validate_notification_request` lets pass.
unfoldable pub notification_status : Text → Option Status
unfolding parse_status
notification_status s = elim (parse_status s) [
  | none ↦ none
  | some status ↦ if is_notification status then some status else none
]

unfoldable pub validate_notification_request : NotificationRequestInput → Result Status
unfolding notification_status
validate_notification_request r =
    if is_empty r.from_agent_slug || is_empty r.to_agent_slug || is_empty r.thread_id
    then err (service_error 400 (lit "from_agent_slug, to_agent_slug, and thread_id are required"))
    else elim (notification_status r.status) [
      | none ↦ err (service_error 400 (lit "Unsupported notification status: " ++ r.status))
      | some status ↦
          if is_empty r.message_text
          then err (service_error 400 (lit "message_text is required"))
          else ok status
    ]

unfoldable pub notification_context : NotificationRequestInput → Status → NotificationContext
notification_context r status = record {
  thread_id = r.thread_id;
  from_agent_slug = r.from_agent_slug;
  to_agent_slug = r.to_agent_slug;
  status = status;
  message_text = r.message_text;
  requires_delivery = is_delivered_notification status;
  is_terminal = is_terminal status;
  client_request_id = r.client_request_id;
}

abbrev pub context_or : NotificationRequestInput → Result Status → Result NotificationContext
context_or r (ok status) = ok (notification_context r status)
context_or r (err e) = err e

module _ (is_other : ℕ → Bool) where
  unfoldable pub clean_message_request : MessageRequestInput → MessageRequest
  unfolding optional_text strip normalize_text_input
  clean_message_request input = record {
    from_agent_slug = strip input.from_agent_slug;
    to_agent_slug = strip input.to_agent_slug;
    message_text = strip (normalize_text_input is_other input.message_text);
    thread_id = optional_text input.thread_id;
    parent_thread_id = optional_text input.parent_thread_id;
    client_request_id = input.client_request_id;
  }

  unfoldable pub build_message_request : MessageRequestInput → Result MessageRequest
  unfolding clean_message_request validate_message_request
  build_message_request input =
      let request = clean_message_request input in
      valid_or request (validate_message_request request)

  unfoldable pub clean_notification_request : NotificationRequestInput → NotificationRequestInput
  unfolding strip normalize_status normalize_text_input
  clean_notification_request input = record {
    from_agent_slug = strip input.from_agent_slug;
    to_agent_slug = strip input.to_agent_slug;
    thread_id = strip input.thread_id;
    status = normalize_status input.status;
    message_text = strip (normalize_text_input is_other input.message_text);
    client_request_id = input.client_request_id;
  }

  -- `build_notification_request`, and the context that is made of its result.
  unfoldable pub build_notification_request : NotificationRequestInput → Result NotificationContext
  unfolding clean_notification_request validate_notification_request notification_context
  build_notification_request input =
      let request = clean_notification_request input in
      context_or request (validate_notification_request request)
