-- ===== src/Cli.antt =====
-- internal/cli: what both programs share on their command lines.
pub mod Flags
pub mod Handlers
pub mod Registry
pub mod Start
pub mod Version
pub mod Mountpoint
pub mod MountRoot
mod Tests
