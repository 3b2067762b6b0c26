-- ===== src/Setup.antt =====
-- src/blendersessiond/setup_owner.py and the keeper of src/blendersessiond/windows_setup_process.py:
-- the one-time setup attempts on Windows.
pub mod Codec
pub mod Records
pub mod Semantics
pub mod Parse
pub mod Stored
pub mod Attempt
pub mod View
pub mod Launch
pub mod Stop
pub mod Written
pub mod Effects
pub mod Operations
pub mod LaunchEffects
pub mod StopEffects
pub mod CreateOnce
pub mod ValidTerminals
pub mod Answers
pub mod LaunchAnswers
pub mod StopAnswers
pub mod Fenced
pub mod Times
pub mod Requests
pub mod Terminals
pub mod Drain
pub mod Keeper
pub mod RunKeeper
pub mod KeeperEffects
pub mod KeeperRuns
