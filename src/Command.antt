-- ===== src/Command.antt =====
-- The commands: internal/cmd.
pub mod Alias
pub mod Args
pub mod Import
