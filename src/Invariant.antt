-- ===== src/Invariant.antt =====
-- Invariants of the store under every primitive change.
pub mod Numbering
pub mod Final
pub mod Quiet
pub mod Keys
