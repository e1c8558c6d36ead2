-- ===== src/Rest.antt =====
-- The REST transport (src/rest).
pub mod Csrf
pub mod Interceptors
pub mod Retry
