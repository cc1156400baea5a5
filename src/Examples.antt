-- ===== src/Examples.antt =====
-- Concrete runs of core/orchestra_thread.
pub mod Talk
pub mod Inputs
pub mod Uses
pub mod Closing
pub mod Survey
pub mod Schedule
pub mod Board
pub mod Logs
