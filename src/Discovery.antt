-- ===== src/Discovery.antt =====
-- src/blendersessiond/discovery.py: which Blender executable is used.
pub mod Version
pub mod Host
pub mod Select
pub mod Discover
pub mod Newest
