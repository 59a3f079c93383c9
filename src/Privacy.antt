-- ===== src/Privacy.antt =====
-- packages/privacy/src: the redaction of sensitive spans.
pub mod Redaction
