-- ===== src/Workgraph.antt =====
-- crates/agbox-workgraph: from committed events to the work graph and its contracts.
pub mod Authority
pub mod Correlate
pub mod Reducer
pub mod Contract
pub mod Intent
