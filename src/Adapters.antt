-- ===== src/Adapters.antt =====
-- crates/agbox-adapters: what a decoder remembers between the records of a transcript.
pub mod Identifiers
pub mod Decoder
pub mod Queues
pub mod Codex
pub mod Claude
