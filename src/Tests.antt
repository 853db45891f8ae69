-- ===== src/Tests.antt =====
-- Runs at concrete inputs, one module for each part.
pub mod Sessions
pub mod Managers
pub mod Limits
pub mod Roles
pub mod Workspaces
pub mod Commands
pub mod Crons
pub mod Queues
pub mod Prompts
pub mod Permissions
pub mod Gates
pub mod Relays
