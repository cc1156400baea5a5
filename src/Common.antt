-- ===== src/Common.antt =====
-- core/orchestra_thread/common.py: the statuses of a thread, and the normalisation of input.
-- A status that is stored is one of five texts and stands here as a value of `Status`;
-- `parse_status` reads a normalised text, and gives nothing for any other text.
-- `unicodedata.category(char).startswith("C")` is the parameter `is_other`.
pub mod Laws
pub mod Statuses
use orchestra_threads.Prelude.{
  ℕ, Bool, true, false, ◌&&◌, not, ◌||◌, Option, none, some, List, [], ◌∷◌, leb, eqb, if◌then◌else◌,
}
use orchestra_threads.Text.{Text, lit, ◌==◌, strip, lower, text_le}
use orchestra_threads.Sql.{select}

pub data Status : Type 0 where
  opened in_progress review done closed : Status

unfoldable pub status_text : Status → Text
unfolding lit
status_text opened = lit "open"
status_text in_progress = lit "in_progress"
status_text review = lit "review"
status_text done = lit "done"
status_text closed = lit "closed"

unfoldable pub parse_status : Text → Option Status
unfolding lit ◌==◌
parse_status s =
    if s == lit "open"
    then some opened
    else if s == lit "in_progress"
    then some in_progress
    else if s == lit "review"
    then some review
    else if s == lit "done"
    then some done
    else if s == lit "closed"
    then some closed
    else none

-- THREAD_TERMINAL_STATUSES, THREAD_NOTIFICATION_STATUSES and the rest, as membership tests.
abbrev pub is_terminal : Status → Bool
is_terminal done = true
is_terminal closed = true
is_terminal _ = false

abbrev pub is_notification : Status → Bool
is_notification opened = false
is_notification _ = true

abbrev pub is_delivered_notification : Status → Bool
is_delivered_notification in_progress = true
is_delivered_notification review = true
is_delivered_notification _ = false

abbrev pub is_owner_notification : Status → Bool
is_owner_notification in_progress = true
is_owner_notification done = true
is_owner_notification closed = true
is_owner_notification _ = false

abbrev pub is_callee_notification : Status → Bool
is_callee_notification in_progress = true
is_callee_notification review = true
is_callee_notification _ = false

unfoldable pub normalize_status : Text → Text
unfolding lower strip
normalize_status raw = lower (strip raw)

unfoldable pub normalize_participants : Text → Text → Text × Text
normalize_participants first_participant second_participant =
    let left = strip first_participant in
    let right = strip second_participant in
    if text_le left right then (left, right) else (right, left)

-- "\n", "\r", "\t"
abbrev pub is_passthrough_whitespace : ℕ → Bool
is_passthrough_whitespace c = eqb c 10 || eqb c 13 || eqb c 9

module _ (is_other : ℕ → Bool) where
  unfoldable pub is_printable_char : ℕ → Bool
  is_printable_char c =
      if leb 55296 c && leb c 57343
      then false
      else if is_passthrough_whitespace c
      then true
      else not (is_other c)

  unfoldable pub normalize_text_input : Text → Text
  unfolding select
  normalize_text_input raw = select (is_printable_char) raw
