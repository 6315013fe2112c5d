-- ===== src/Harness.antt =====
-- src/tename/harness: profiles, compaction, the framework adapters and the loop.
pub mod Profiles
pub mod Compaction
pub mod Adapters
pub mod Emitted
pub mod Turn
pub mod World
pub mod Setup
pub mod Tools
pub mod Loop
pub mod Effects
pub mod Sections
pub mod Quirks
pub mod Merging
pub mod Inheritance
pub mod Refusals
pub mod Reading
pub mod Validation
