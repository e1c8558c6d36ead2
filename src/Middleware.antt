-- ===== src/Middleware.antt =====
-- The guards of a resource server (src/middleware).
pub mod Credentials
pub mod Verify
pub mod Authz
pub mod Challenges
pub mod Express
pub mod Samples
