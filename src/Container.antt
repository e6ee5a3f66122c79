-- ===== src/Container.antt =====
-- internal/container/podman.go: what podman is told, and the checks of it. A text is the list of its
-- code points.
pub mod Checks
pub mod Command
pub mod Decimal
pub mod Reading
pub mod Identities
