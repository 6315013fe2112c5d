-- ===== src/Sdk.antt =====
-- src/tename/sdk: the client's view of a session.
pub mod Sessions
pub mod Streams
pub mod Sends
pub mod Agents
pub mod Listing
pub mod Queue
pub mod Queues
pub mod Config
pub mod Client
pub mod Clients
