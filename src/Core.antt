-- ===== src/Core.antt =====
-- The transport-independent core (src/core).
pub mod Errors
pub mod Mapper
pub mod Memo
pub mod Refresh
