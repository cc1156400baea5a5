-- ===== src/Store.antt =====
-- The Postgres store of core/orchestra_thread, one module for each mixin of store.py. A method is
-- one transaction; its statements are those of the source over the tables of `Db`.
-- `now` is the clock at the call (NOW() and datetime.now(UTC)), read once for each operation.
pub mod Agents
pub mod Query
pub mod Creation
pub mod Events
pub mod Delivery
pub mod Idempotency
pub mod Notifications
pub mod Pairs
pub mod Retries
