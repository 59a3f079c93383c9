-- ===== src/Workflows.antt =====
-- packages/workflows/src: approvals of single steps, and reading CSV.
pub mod Approval
pub mod Csv
pub mod Interpreter
pub mod Validation
