-- ===== src/Sessions.antt =====
-- src/tename/sessions: the durable, append-only session store.
pub mod Models
pub mod Store
pub mod Service
pub mod Sequence
pub mod Emission
pub mod Calls
pub mod Traces
pub mod Reached
pub mod Idempotency
pub mod Reads
pub mod Creation
