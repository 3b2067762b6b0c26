-- ===== src/Cli.antt =====
-- src/blendersessiond/cli.py: the branches of `main`, with the results that they print and their
-- exit codes. The parse of the arguments by argparse is not modelled.
pub mod SetupOwner
pub mod Guarantees
pub mod Reports
pub mod Views
pub mod Sessions
pub mod ExitCodes
