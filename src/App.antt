-- ===== src/App.antt =====
-- internal/app: what an app.yaml may say.
pub mod Regex
pub mod Parser
