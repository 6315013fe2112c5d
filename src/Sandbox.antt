-- ===== src/Sandbox.antt =====
-- src/tename/sandbox: the lifecycle of sandboxes, the facade that tracks it, and the built-in tools.
pub mod StateMachine
pub mod Recipes
pub mod Service
pub mod Lifecycle
pub mod Tools
pub mod Schemas
pub mod Contracts
pub mod Docker
