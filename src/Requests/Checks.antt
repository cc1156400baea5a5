-- ===== src/Requests/Checks.antt =====
-- What a request that is let through looks like: service_message_requests.py and
-- service_notification_requests.py.
use mathlib.Core.Option
use orchestra_threads.Prelude.{
  ℕ, ◌≡◌, refl, Bool, true, false, Option, none, some, [], ◌∷◌, arith, Result, ok, err,
  if◌then◌else◌, inl, inr, subst, ap, sym, ◌∙◌, Bool-cases, Option-cases,
}
use orchestra_threads.Text.{Text, ◌==◌, strip, is_empty, non_empty}
use orchestra_threads.Text.Strip.{strip-strip}
use orchestra_threads.Common.{
  Status, is_notification, is_terminal, is_delivered_notification, normalize_text_input,
  normalize_status, parse_status,
}
use orchestra_threads.Requests.{
  MessageRequestInput, MessageRequest, validate_message_request, clean_message_request,
  build_message_request, valid_or, NotificationRequestInput, NotificationContext,
  notification_status, validate_notification_request, clean_notification_request,
  build_notification_request, context_or, notification_context,
}

-- Two different agents, a text, and no white space around any of them.
pub record IsComplete (from to text : Text) : Type 0 where
  pub from_stripped : strip from ≡ from
  pub to_stripped : strip to ≡ to
  pub text_stripped : strip text ≡ text
  pub from_there : non_empty from ≡ true
  pub to_there : non_empty to ≡ true
  pub text_there : non_empty text ≡ true

not_empty : (s : Text) → is_empty s ≡ false → non_empty s ≡ true
not_empty [] h = cc
not_empty (c ∷ s) h = refl

valid_message :
    (r : MessageRequest)
    → validate_message_request r ≡ ok tt
    → (is_empty r.from_agent_slug ≡ false)
      × ((is_empty r.to_agent_slug ≡ false)
          × (((r.from_agent_slug == r.to_agent_slug) ≡ false) × (is_empty r.message_text ≡ false)))
unfolding validate_message_request
valid_message r h = ground arith

ok_of_valid :
    {A : Type 0} (a b : A) (v : Result (Unit {0})) → valid_or a v ≡ ok b → (v ≡ ok tt) × (a ≡ b)
ok_of_valid a b (ok x) h = (refl, cc h)
ok_of_valid a b (err e) h = absurd (cc h)

-- A message request that is accepted comes from one agent to another one, and holds a text; the three are
-- not empty and have no white space around them.
pub accepted_message :
    (is_other : ℕ → Bool) (input : MessageRequestInput) (r : MessageRequest)
    → build_message_request is_other input ≡ ok r
    → IsComplete r.from_agent_slug r.to_agent_slug r.message_text
      × ((r.from_agent_slug == r.to_agent_slug) ≡ false)
unfolding build_message_request clean_message_request
accepted_message is_other input r h =
    let (valid, same) =
      ok_of_valid (clean_message_request is_other input) r
        (validate_message_request (clean_message_request is_other input)) h in
    subst
      (λ (q : MessageRequest).
        IsComplete q.from_agent_slug q.to_agent_slug q.message_text
        × ((q.from_agent_slug == q.to_agent_slug) ≡ false))
      same (complete (valid_message (clean_message_request is_other input) valid))
  where
    complete :
        (is_empty (strip input.from_agent_slug) ≡ false)
          × ((is_empty (strip input.to_agent_slug) ≡ false)
              × (((strip input.from_agent_slug == strip input.to_agent_slug) ≡ false)
                  × (is_empty (strip (normalize_text_input is_other input.message_text)) ≡ false)))
        → IsComplete
            (strip input.from_agent_slug)
            (strip input.to_agent_slug)
            (strip (normalize_text_input is_other input.message_text))
          × ((strip input.from_agent_slug == strip input.to_agent_slug) ≡ false)
    complete v = (
      record {
        from_stripped = strip-strip input.from_agent_slug;
        to_stripped = strip-strip input.to_agent_slug;
        text_stripped = strip-strip (normalize_text_input is_other input.message_text);
        from_there = not_empty _ v.0;
        to_there = not_empty _ v.1.0;
        text_there = not_empty _ v.1.1.1;
      },
      v.1.1.0,
    )

status_reads :
    (s : Text) (status : Status)
    → notification_status s ≡ some status
    → (parse_status s ≡ some status) × (is_notification status ≡ true)
unfolding notification_status
status_reads s status h = by (parse_status s) h
  where
    by :
        (o : Option Status)
        → (elim o as (λ _. Option Status) [
          | none ↦ none
          | some x ↦ if is_notification x then some x else none
        ])
          ≡ some status
        → (o ≡ some status) × (is_notification status ≡ true)
    by none h = absurd (cc h)
    by (some x) h = elim (Bool-cases (is_notification x)) [
      | inl e ↦
          let same : x ≡ status = Option.some_inj.0 (ground arith) in
          (ap some same, ap is_notification (sym same) ∙ e)
      | inr e ↦ ground (arith, e)
    ]

valid_notification :
    (r : NotificationRequestInput) (status : Status)
    → validate_notification_request r ≡ ok status
    → (is_empty r.from_agent_slug ≡ false)
      × ((is_empty r.to_agent_slug ≡ false)
          × ((is_empty r.thread_id ≡ false)
              × ((is_empty r.message_text ≡ false) × (notification_status r.status ≡ some status))))
unfolding validate_notification_request
valid_notification r status h = elim (Option-cases (notification_status r.status)) [
  | inl e ↦ ground (arith, e)
  | inr (x, e) ↦ ground (arith, e)
]

ok_of_context :
    (r : NotificationRequestInput) (c : NotificationContext) (v : Result Status)
    → context_or r v ≡ ok c
    → (s : Status) × ((v ≡ ok s) × (notification_context r s ≡ c))
ok_of_context r c (ok s) h = (s, (refl, cc h))
ok_of_context r c (err e) h = absurd (cc h)

-- The context of a notification whose normalised status text is `text`.
pub record IsAdmitted (text : Text) (c : NotificationContext) : Type 0 where
  pub complete : IsComplete c.from_agent_slug c.to_agent_slug c.message_text
  pub thread_there : non_empty c.thread_id ≡ true
  pub status_read : parse_status text ≡ some c.status
  pub announced : is_notification c.status ≡ true
  pub terminal : c.is_terminal ≡ is_terminal c.status
  pub delivered : c.requires_delivery ≡ is_delivered_notification c.status

-- A notification request that is accepted holds two agents, a thread and a text, none of them empty,
-- the agents and the text without white space around them; its status text, once normalised, reads as
-- one of the four statuses that a notification may have, and whether it ends the thread and whether it
-- is delivered is what that status says.
pub accepted_notification :
    (is_other : ℕ → Bool) (input : NotificationRequestInput) (c : NotificationContext)
    → build_notification_request is_other input ≡ ok c
    → IsAdmitted (normalize_status input.status) c
unfolding build_notification_request clean_notification_request notification_context
accepted_notification is_other input c h =
    let r : NotificationRequestInput = clean_notification_request is_other input in
    let (status, valid_same) = ok_of_context r c (validate_notification_request r) h in
    let v = valid_notification r status valid_same.0 in
    let reads = status_reads (normalize_status input.status) status v.1.1.1.1 in
    subst (IsAdmitted (normalize_status input.status)) valid_same.1 (record {
      complete = record {
        from_stripped = strip-strip input.from_agent_slug;
        to_stripped = strip-strip input.to_agent_slug;
        text_stripped = strip-strip (normalize_text_input is_other input.message_text);
        from_there = not_empty r.from_agent_slug v.0;
        to_there = not_empty r.to_agent_slug v.1.0;
        text_there = not_empty r.message_text v.1.1.1.0;
      };
      thread_there = not_empty r.thread_id v.1.1.0;
      status_read = reads.0;
      announced = reads.1;
      terminal = refl;
      delivered = refl;
    })
