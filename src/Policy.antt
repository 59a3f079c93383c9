-- ===== src/Policy.antt =====
-- packages/policy/src: approvals and capability grants.
pub mod Approvals
pub mod Grants
