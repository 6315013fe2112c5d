-- ===== src/Harness/Adapters.antt =====
-- src/tename/harness/adapters: from the event log to messages, and from chunks to events.
pub mod Base
pub mod Context
pub mod Contents
pub mod Events
pub mod DeepAgentsTools
pub mod DeepAgents
pub mod Dictionaries
pub mod Turns
