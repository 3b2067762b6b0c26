-- ===== src/Setup/Semantics.antt =====
-- `_terminal_semantics_are_valid` of src/blendersessiond/setup_owner.py.
use blendersessiond.Base.{Bool, true, false, not, ◌&&◌, ℤ, pos, Option, none, some, int_eq}
use blendersessiond.Setup.Records.{
  SetupTerminal, Outcome, TerminalProcess, Cleanup, launch_failed, process_failed,
  process_succeeded, stopped, stopped_before_ownership, cancelled_before_resume, exited, failed,
  not_resumed, not_started, tree_gone, succeeded,
}

abbrev is_none : Option ℤ → Bool
is_none none = true
is_none (some z) = false

abbrev is_zero : Option ℤ → Bool
is_zero none = false
is_zero (some z) = int_eq z (pos 0)

abbrev gone : Cleanup → Bool
gone tree_gone = true
gone Cleanup.cleanup_unverified = false

-- An exit that is no success: another code, or output that was cut off.
failed_semantics : SetupTerminal → TerminalProcess → Bool
failed_semantics t failed = is_none t.exit_code
failed_semantics t exited =
    not (is_zero t.exit_code && (not t.stdout_truncated && not t.stderr_truncated))
failed_semantics t _ = false

cancelled_process : TerminalProcess → Bool
cancelled_process TerminalProcess.cancelled = true
cancelled_process _ = false

timed_out_process : TerminalProcess → Bool
timed_out_process TerminalProcess.timed_out = true
timed_out_process not_resumed = true
timed_out_process _ = false

stopped_process : TerminalProcess → Bool
stopped_process TerminalProcess.cancelled = true
stopped_process cancelled_before_resume = true
stopped_process _ = false

unstarted_process : TerminalProcess → Bool
unstarted_process not_started = true
unstarted_process _ = false

unlaunched_process : TerminalProcess → Bool
unlaunched_process not_started = true
unlaunched_process not_resumed = true
unlaunched_process _ = false

lost_process : TerminalProcess → Bool
lost_process TerminalProcess.owner_lost = true
lost_process _ = false

unverified_process : TerminalProcess → Bool
unverified_process TerminalProcess.cancelled = true
unverified_process TerminalProcess.owner_lost = true
unverified_process _ = false

semantics_by : SetupTerminal → Outcome → Bool
unfolding failed_semantics cancelled_process timed_out_process stopped_process unstarted_process
    unlaunched_process lost_process unverified_process
semantics_by t process_succeeded = succeeded t
semantics_by t process_failed = failed_semantics t t.process
semantics_by t Outcome.cancelled = cancelled_process t.process && gone t.cleanup
semantics_by t Outcome.timed_out = timed_out_process t.process && gone t.cleanup
semantics_by t stopped = stopped_process t.process && (gone t.cleanup && is_none t.exit_code)
semantics_by t stopped_before_ownership =
    unstarted_process t.process && (gone t.cleanup && is_none t.exit_code)
semantics_by t launch_failed = unlaunched_process t.process && is_none t.exit_code
semantics_by t Outcome.owner_lost =
    lost_process t.process && (gone t.cleanup && is_none t.exit_code)
semantics_by t Outcome.cleanup_unverified =
    unverified_process t.process && (not (gone t.cleanup) && is_none t.exit_code)

unfoldable pub terminal_semantics_are_valid : SetupTerminal → Bool
unfolding semantics_by
terminal_semantics_are_valid t = semantics_by t t.outcome
