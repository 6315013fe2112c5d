-- ===== src/Proxy.antt =====
-- src/tename/proxy: tools that run outside the sandbox, with credentials of the vault.
pub mod Registry
pub mod Service
pub mod Outcomes
pub mod WebSearch
pub mod Requests
