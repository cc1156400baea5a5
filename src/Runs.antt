-- ===== src/Runs.antt =====
-- What holds in every store that the service of core/orchestra_thread can reach, however its requests,
-- deliveries and background passes interleave.
pub mod Sound
pub mod Threads
pub mod Cascades
pub mod Operations
pub mod Appends
pub mod Aside
pub mod Repeats
