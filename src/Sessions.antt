-- ===== src/Sessions.antt =====
-- src/blendersessiond/sessions.py: Session records and the lifecycle operations.
pub mod Name
pub mod Component
pub mod Record
pub mod Codec
pub mod Disk
pub mod Inspection
pub mod Inspect
pub mod Ports
pub mod FreePort
pub mod Launch
pub mod Fence
pub mod Lifecycle
pub mod Start
pub mod Stop
pub mod Overview
pub mod Fenced
pub mod Watch
pub mod Quiet
pub mod Coherent
pub mod Removed
pub mod Failures
pub mod Unreadable
pub mod InspectFailures
pub mod LockOrder
