-- ===== src/Tests.antt =====
-- Runs on small inputs.
pub mod World
pub mod ProjectParts
pub mod FrameRuns
pub mod Admissions
pub mod TokenRuns
pub mod PluginRuns
pub mod GateRuns
pub mod GateServers
pub mod UserRuns
pub mod InstanceRuns
pub mod DeletionRuns
pub mod RequestRuns
pub mod FlagServers
pub mod RestartRuns
pub mod GrantRuns
pub mod GroupServers
pub mod ManagerRuns
pub mod ClientRuns
pub mod AccessRuns
