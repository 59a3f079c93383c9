-- ===== src/Contracts.antt =====
-- packages/contracts/src: error codes, limits, JSON values and string schemas that the other packages share.
pub mod Limits
pub mod Json
pub mod Errors
pub mod Schemas
