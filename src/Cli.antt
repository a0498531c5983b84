-- ===== src/Cli.antt =====
-- crates/agbox-cli: the terminal's view of the work.
pub mod App
