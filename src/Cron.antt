-- ===== src/Cron.antt =====
-- core/scheduler_cron: scheduled jobs, their runs, and the engine that runs them.
pub mod Rows
pub mod Jobs
pub mod JobRuns
pub mod Engine
pub mod Settles
pub mod Sync
pub mod Bootstrap
pub mod Names
pub mod Installed
