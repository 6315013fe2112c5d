-- ===== src/Vault.antt =====
-- src/tename/vault: credentials in one encrypted file.
pub mod Files
pub mod Service
pub mod Rounds
pub mod Stores
pub mod Rotation
pub mod Revocation
