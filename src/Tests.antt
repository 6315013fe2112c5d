-- ===== src/Tests.antt =====
-- Runs at concrete inputs.
pub mod SessionRuns
pub mod HarnessRuns
pub mod SandboxRuns
pub mod VaultRuns
pub mod AdapterRuns
pub mod LoopRuns
pub mod ProfileRuns
pub mod RunRuns
pub mod RouterRuns
pub mod SdkRuns
pub mod ToolRuns
pub mod AgentRuns
pub mod CliRuns
pub mod DockerRuns
pub mod QueueRuns
pub mod DictionaryRuns
pub mod ClientRuns
