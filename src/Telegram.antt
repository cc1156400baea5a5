-- ===== src/Telegram.antt =====
-- core/telegram_bot_listener: surveys in a Telegram chat.
pub mod Models
pub mod Codec
pub mod RoundTrip
pub mod Sessions
pub mod History
pub mod StateStore
pub mod Change
pub mod Invariant
pub mod Runs
pub mod Updates
pub mod Polling
pub mod Acknowledged
pub mod Strangers
pub mod Done
pub mod Answers
pub mod Views
pub mod Payloads
pub mod Tokens
pub mod Buttons
