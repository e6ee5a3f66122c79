-- ===== src/Runtime.antt =====
-- The small parts that the rest of the daemon runs on: internal/runtime, events, health and router.
pub mod Supervisor
pub mod Dispatcher
pub mod Bus
pub mod Health
pub mod Router
