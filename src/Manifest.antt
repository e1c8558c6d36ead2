-- ===== src/Manifest.antt =====
-- management/manifest: the declarative manifest and its plan.
pub mod Spec
pub mod Order
pub mod Plan
pub mod Report
