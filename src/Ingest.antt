-- ===== src/Ingest.antt =====
-- crates/agbox-ingest: from the files that the agents write to batches for the store.
pub mod Queue
pub mod Record
pub mod Batch
