-- ===== src/Wire.antt =====
-- src/blendersessiond/wire.py: the client of the addon's TCP JSON protocol.
-- Durations are whole milliseconds. `json.dumps` of a request and `json.loads` are the codec's.
pub mod Utf8
pub mod Receive
pub mod Reply
pub mod Client
pub mod Prefix
pub mod Chunks
pub mod Failures
pub mod Effects
