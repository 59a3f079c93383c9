-- ===== src/Core.antt =====
-- packages/core/src: the scheduler of local inference, the router, the recovery controller, the
-- assembly of contexts, and egress.
pub mod Context
pub mod Egress
pub mod Router
pub mod Recovery
pub mod Scheduler
