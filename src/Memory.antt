-- ===== src/Memory.antt =====
-- packages/memory/src: the encodings of bytes, and the chunks of an imported document.
pub mod Encoding
pub mod Ingest
