-- ===== src/Services.antt =====
-- internal/services: ports, listeners and their registry.
pub mod Allocator
pub mod Types
pub mod Proxy
pub mod Manager
