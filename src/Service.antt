-- ===== src/Service.antt =====
-- The service of core/orchestra_thread: service/runtime.py and service/flows/. Its lock makes each
-- block under `async with self._lock` one step on the store.
pub mod Config
pub mod Agents
pub mod Cards
pub mod Summary
pub mod Routing
pub mod Message
pub mod Notification
pub mod Cascade
pub mod Stop
pub mod Delivery
pub mod Inactivity
pub mod Permissions
