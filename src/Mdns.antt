-- ===== src/Mdns.antt =====
-- The security checks of the mDNS responder: internal/mdns/security.go and the types they use.
pub mod Limiter
pub mod Message
