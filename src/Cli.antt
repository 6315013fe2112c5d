-- ===== src/Cli.antt =====
-- src/tename/cli: the commands on the vault, the migrations and the entry point.
pub mod VaultCommands
pub mod Credentials
pub mod Entry
