-- ===== src/Core.antt =====
-- crates/agbox-core: the values that every other part exchanges, and what makes them valid.
pub mod Base
pub mod Strings
pub mod Ordered
pub mod Privacy
pub mod Content
pub mod Source
pub mod Activity
pub mod Work
pub mod Contract
mod Tests
