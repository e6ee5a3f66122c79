-- ===== src/Auth.antt =====
-- The password and the sessions of the admin: internal/auth/manager.go, and the middlewares of
-- internal/server/gin_middleware.go that ask for them.
pub mod Sessions
pub mod Password
pub mod Credentials
