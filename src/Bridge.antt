-- ===== src/Bridge.antt =====
-- packages/bridge/src: the sessions by which web pages talk to the extension.
pub mod Sessions
pub mod Messages
