-- ===== src/Processes.antt =====
-- src/blendersessiond/processes.py: process identity, Ownership of a process tree, termination, and
-- the wait for a launched Blender. The operating system's calls are the fields of a `Kernel`.
pub mod Kernel
pub mod Identity
pub mod Poll
pub mod PollEnds
pub mod Group
pub mod Tree
pub mod Start
pub mod Effects
pub mod Ownership
pub mod Looks
pub mod Failures
