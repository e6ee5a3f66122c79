-- ===== src/Persistence.antt =====
-- internal/persistence: the lock state of the control store, exports, commits and the volumes, with
-- the leadership of internal/cluster.
pub mod Leadership
pub mod Mounts
pub mod Service
pub mod Lock
pub mod Startup
pub mod Commit
pub mod Guarded
pub mod Interleaving
pub mod Volumes
pub mod Composed
