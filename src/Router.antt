-- ===== src/Router.antt =====
-- src/tename/router: the types of requests and streams, prices, and the providers.
pub mod Types
pub mod Anthropic
pub mod Service
