-- ===== src/Cli/SetupOwner.antt =====
-- The command `setup-owner` in `main` of src/blendersessiond/cli.py.
use blendersessiond.Base.{
  ℕ, String, ◌<>◌, Bool, true, false, Option, none, some, List, if◌then◌else◌,
}
use blendersessiond.Json.{int, str, Fields, field, end}
use blendersessiond.Base.{pos}
use blendersessiond.Exec.{
  Error, type_error, assertion_error, subprocess_error, message, M, pure, throw, catch, ◌>>=◌,
}
use blendersessiond.Setup.Records.{
  SetupTerminal, SetupView, Cleanup, tree_gone, succeeded, view_dict,
}
use blendersessiond.Setup.Attempt.{SetupHost, Attempts}
use blendersessiond.Setup.Launch.{launch_setup}
use blendersessiond.Setup.Stop.{status_setup, stop_setup}

-- The arguments of `setup-owner`: the bytes of the request on the standard input, or the identity of
-- an attempt with its expected request SHA-256 and Launch ID.
pub data SetupCommand : Type 0 where
  launch : List ℕ → SetupCommand
  status stop : String → String → String → SetupCommand

abbrev pub command_name : SetupCommand → String
command_name (launch raw) = "launch"
command_name (status attempt_id sha256 launch_id) = "status"
command_name (stop attempt_id sha256 launch_id) = "stop"

-- `except (SetupOwnerError, OSError, RuntimeError, ValueError)`
unfoldable pub is_caught : Error → Bool
is_caught (type_error m) = false
is_caught (assertion_error m) = false
is_caught (subprocess_error m) = false
is_caught _ = true

-- `_print_failure` with `--json`, without a reason
unfoldable pub failure_dict : String → String → Fields
failure_dict command text =
    field "schema_version" (int (pos 1)) (
      field "status" (str "error") (field "command" (str command) (field "message" (str text) end)))

abbrev tree_exit : Cleanup → ℕ
tree_exit tree_gone = 0
tree_exit Cleanup.cleanup_unverified = 1

abbrev terminal_exit : SetupCommand → SetupTerminal → ℕ
terminal_exit (stop attempt_id sha256 launch_id) terminal = tree_exit terminal.cleanup
terminal_exit _ terminal = if succeeded terminal then 0 else 1

abbrev exit_by : SetupCommand → Option SetupTerminal → ℕ
exit_by command none = 0
exit_by command (some terminal) = terminal_exit command terminal

-- The exit code for a view.
unfoldable pub exit_code : SetupCommand → SetupView → ℕ
exit_code command view = if view.ownership_unverified then 1 else exit_by command view.terminal

module _ {S : Type 0} (h : SetupHost S) where
  unfoldable pub perform : SetupCommand → M S Attempts SetupView
  perform (launch raw) = launch_setup h raw
  perform (status attempt_id sha256 launch_id) = status_setup h attempt_id sha256 launch_id
  perform (stop attempt_id sha256 launch_id) = stop_setup h attempt_id sha256 launch_id

  -- The exit code, with what is printed on the standard output.
  unfoldable pub main : SetupCommand → M S Attempts (ℕ × Fields)
  main command =
      catch (do result ← perform command; pure (exit_code command result, view_dict h.codec result))
        (λ e.
          if is_caught e
          then pure (1, failure_dict ("setup-owner " <> command_name command) (message e))
          else throw e)
