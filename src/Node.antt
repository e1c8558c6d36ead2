-- ===== src/Node.antt =====
-- The Node.js persona (src/node).
pub mod State
pub mod IdToken
pub mod Jwks
pub mod Revocation
pub mod Webhook
