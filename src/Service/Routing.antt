-- ===== src/Service/Routing.antt =====
-- service/runtime.py: who may write on which thread, and to whom.
use orchestra_threads.Prelude.{
  Bool, true, false, ◌||◌, Option, none, some, List, [], ◌∷◌, ◌++◌, Result, ok, err, service_error,
  if◌then◌else◌,
}
use orchestra_threads.Text.{Text, lit, ◌==◌, strip, is_empty}
use orchestra_threads.Common.{is_terminal}
use orchestra_threads.Rows.{Agent, Thread}
use orchestra_threads.Service.Cards.{agent_metadata}

unfoldable pub thread_peer_agent_slug : Thread → Text → Result Text
unfolding strip
thread_peer_agent_slug thread agent_slug =
    if strip thread.participant_a_agent_slug == agent_slug
    then ok (strip thread.participant_b_agent_slug)
    else if strip thread.participant_b_agent_slug == agent_slug
    then ok (strip thread.participant_a_agent_slug)
    else err (
        service_error 400
          (agent_slug ++ (lit " is not a participant of thread " ++ thread.thread_id)))

abbrev expect_peer : Thread → Text → Result Text → Result (Unit {0})
expect_peer thread to_agent_slug (err e) = err e
expect_peer thread to_agent_slug (ok expected_peer) =
    if expected_peer == to_agent_slug
    then ok tt
    else err (
        service_error 400 (
          lit "Thread "
          ++ (thread.thread_id
              ++ (lit " expects peer " ++ (expected_peer ++ (lit ", got " ++ to_agent_slug))))))

unfoldable pub validate_routing : Thread → Text → Text → Result (Unit {0})
unfolding thread_peer_agent_slug
validate_routing thread from_agent_slug to_agent_slug =
    if is_terminal thread.status
    then err (service_error 409 (lit "Thread " ++ (thread.thread_id ++ lit " is already terminal")))
    else expect_peer thread to_agent_slug (thread_peer_agent_slug thread from_agent_slug)

-- The stripped entries that are not empty. Order and repetitions do not matter to the one use.
unfoldable pub stripped_slugs : List Text → List Text
unfolding strip
stripped_slugs [] = []
stripped_slugs (item ∷ items) =
    let rest = stripped_slugs items in if is_empty (strip item) then rest else strip item ∷ rest

unfoldable pub allowed_peers : Option Agent → List Text
unfolding agent_metadata stripped_slugs
allowed_peers agent = elim (agent_metadata agent).allowed_peer_agent_slugs [
  | none ↦ []
  | some raw ↦ stripped_slugs raw
]

unfoldable pub contains : Text → List Text → Bool
contains slug [] = false
contains slug (s ∷ rest) = s == slug || contains slug rest

abbrev is_nil : List Text → Bool
is_nil [] = true
is_nil (s ∷ rest) = false

unfoldable pub ensure_peer_allowed : Option Agent → Text → Text → Result (Unit {0})
unfolding allowed_peers contains
ensure_peer_allowed from_agent from_agent_slug to_agent_slug =
    if is_nil (allowed_peers from_agent) || contains to_agent_slug (allowed_peers from_agent)
    then ok tt
    else err (
        service_error 403 (from_agent_slug ++ (lit " is not allowed to contact " ++ to_agent_slug)))
