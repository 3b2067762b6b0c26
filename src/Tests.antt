-- ===== src/Tests.antt =====
-- The theorems at concrete inputs.
mod Machine
mod Sessions
mod Parts
mod Setup
mod SetupMachine
mod Runs
