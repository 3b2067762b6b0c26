-- ===== src/Setup/Records.antt =====
-- `ScriptArtifact`, `SetupRequest`, `LaunchReceipt`, `SetupTerminal` and `SetupView` of
-- src/blendersessiond/setup_owner.py, and the dicts that are written of them.
use blendersessiond.Base.{
  ℕ, ℤ, pos, int_eq, String, Bool, true, false, not, ◌&&◌, Option, none, some,
}
use blendersessiond.Json.{Json, null, bool, int, str, obj, Fields, field, end}
use blendersessiond.Setup.Codec.{Codec, format_time}

pub record ScriptArtifact : Type 0 where
  pub artifact_id : String
  pub size : ℤ
  pub sha256 : String

pub record SetupRequest : Type 0 where
  pub attempt_id : String
  pub launch_id : String
  pub deadline_utc : ℕ
  pub operation_revision : String
  pub script : ScriptArtifact
  pub request_sha256 : String

pub record LaunchReceipt : Type 0 where
  pub attempt_id : String
  pub launch_id : String
  pub request_sha256 : String
  pub keeper_pid : ℤ
  pub keeper_creation_time : String
  pub root_pid : ℤ
  pub root_creation_time : String
  pub job_scope : Option String
  pub owned_at : ℕ
  pub job_name : Option String

-- `_TERMINAL_OUTCOMES`
pub data Outcome : Type 0 where
  cancelled cleanup_unverified launch_failed owner_lost process_failed : Outcome
  process_succeeded stopped stopped_before_ownership timed_out : Outcome

-- `_TERMINAL_PROCESSES`
pub data TerminalProcess : Type 0 where
  cancelled cancelled_before_resume exited failed not_resumed : TerminalProcess
  not_started owner_lost timed_out : TerminalProcess

-- `_TERMINAL_CLEANUP`
pub data Cleanup : Type 0 where
  cleanup_unverified tree_gone : Cleanup

-- `stdout` and `stderr` are the texts that the bytes decode to.
pub record SetupTerminal : Type 0 where
  pub attempt_id : String
  pub launch_id : String
  pub request_sha256 : String
  pub outcome : Outcome
  pub process : TerminalProcess
  pub cleanup : Cleanup
  pub exit_code : Option ℤ
  pub stdout : String
  pub stderr : String
  pub stdout_truncated : Bool
  pub stderr_truncated : Bool
  pub finished_at : ℕ
  pub message : Option String

pub record SetupView : Type 0 where
  pub request : SetupRequest
  pub receipt : Option LaunchReceipt
  pub terminal : Option SetupTerminal
  pub ownership_unverified : Bool

unfoldable pub outcome_text : Outcome → String
outcome_text Outcome.cancelled = "cancelled"
outcome_text Outcome.cleanup_unverified = "cleanup_unverified"
outcome_text launch_failed = "launch_failed"
outcome_text Outcome.owner_lost = "owner_lost"
outcome_text process_failed = "process_failed"
outcome_text process_succeeded = "process_succeeded"
outcome_text stopped = "stopped"
outcome_text stopped_before_ownership = "stopped_before_ownership"
outcome_text Outcome.timed_out = "timed_out"

unfoldable pub process_text : TerminalProcess → String
process_text TerminalProcess.cancelled = "cancelled"
process_text cancelled_before_resume = "cancelled_before_resume"
process_text exited = "exited"
process_text failed = "failed"
process_text not_resumed = "not_resumed"
process_text not_started = "not_started"
process_text TerminalProcess.owner_lost = "owner_lost"
process_text TerminalProcess.timed_out = "timed_out"

unfoldable pub cleanup_text : Cleanup → String
cleanup_text Cleanup.cleanup_unverified = "cleanup_unverified"
cleanup_text tree_gone = "tree_gone"

abbrev zero_exit : Option ℤ → Bool
zero_exit none = false
zero_exit (some z) = int_eq z (pos 0)

abbrev is_success : Outcome → Bool
is_success process_succeeded = true
is_success _ = false

abbrev is_exited : TerminalProcess → Bool
is_exited exited = true
is_exited _ = false

abbrev is_gone : Cleanup → Bool
is_gone tree_gone = true
is_gone Cleanup.cleanup_unverified = false

-- `SetupTerminal.succeeded`
unfoldable pub succeeded : SetupTerminal → Bool
succeeded t =
    is_success t.outcome
    && (is_exited t.process
        && (is_gone t.cleanup
            && (zero_exit t.exit_code && (not t.stdout_truncated && not t.stderr_truncated))))

-- `SetupTerminal.owned`, with the defaults of its last arguments.
unfoldable pub owned :
    SetupRequest → Outcome → TerminalProcess → Cleanup → ℕ → Option String → SetupTerminal
owned request outcome process cleanup finished_at message = record {
  attempt_id = request.attempt_id;
  launch_id = request.launch_id;
  request_sha256 = request.request_sha256;
  outcome = outcome;
  process = process;
  cleanup = cleanup;
  exit_code = none;
  stdout = "";
  stderr = "";
  stdout_truncated = false;
  stderr_truncated = false;
  finished_at = finished_at;
  message = message;
}

-- The views: accepted, owned, terminal and `_unverified_view`.
unfoldable pub accepted_view : SetupRequest → SetupView
accepted_view request = record {
  request = request;
  receipt = none;
  terminal = none;
  ownership_unverified = false;
}

unfoldable pub owned_view : SetupRequest → LaunchReceipt → SetupView
owned_view request receipt = record {
  request = request;
  receipt = some receipt;
  terminal = none;
  ownership_unverified = false;
}

unfoldable pub terminal_view : SetupRequest → SetupTerminal → SetupView
terminal_view request terminal = record {
  request = request;
  receipt = none;
  terminal = some terminal;
  ownership_unverified = false;
}

unfoldable pub unverified_view : SetupRequest → LaunchReceipt → SetupView
unverified_view request receipt = record {
  request = request;
  receipt = some receipt;
  terminal = none;
  ownership_unverified = true;
}

unfoldable pub script_dict : Json → Json → Json → Fields
script_dict artifact_id size sha256 =
    field "artifact_id" artifact_id (field "size" size (field "sha256" sha256 end))

-- The keys of the written dicts, over the values as they stand in JSON.
unfoldable pub request_fields : Json → Json → Json → Json → Json → Fields
request_fields attempt_id launch_id deadline script request_sha256 =
    field "schema_version" (int (pos 1)) (
      field "attempt_id" attempt_id (
        field "launch_id" launch_id (
          field "deadline_utc" deadline (
            field "operation_revision" (str "windows-setup-owner-v1")
              (field "script" script (field "request_sha256" request_sha256 end))))))

-- The last field is `job_name` or `job_scope`.
unfoldable pub receipt_fields :
    Json → Json → Json → Json → Json → Json → Json → Json → String → Json → Fields
receipt_fields attempt_id launch_id request_sha256 keeper_pid keeper_time root_pid root_time
      owned_at job job_value =
    field "schema_version" (int (pos 1)) (
      field "attempt_id" attempt_id (
        field "launch_id" launch_id (
          field "request_sha256" request_sha256 (
            field "keeper_pid" keeper_pid (
              field "keeper_creation_time" keeper_time (
                field "root_pid" root_pid (
                  field "root_creation_time" root_time
                    (field "owned_at" owned_at (field job job_value end)))))))))

abbrev pub message_field : Option Json → Fields
message_field none = end
message_field (some m) = field "message" m end

-- The thirteen values of a terminal record, as they stand in JSON; `none` is no message.
pub record TerminalValues : Type 0 where
  pub attempt_id : Json
  pub launch_id : Json
  pub request_sha256 : Json
  pub outcome : Json
  pub process : Json
  pub cleanup : Json
  pub exit_code : Json
  pub stdout : Json
  pub stderr : Json
  pub stdout_truncated : Json
  pub stderr_truncated : Json
  pub finished_at : Json
  pub message : Option Json

unfoldable pub terminal_fields : TerminalValues → Fields
terminal_fields v = field "schema_version" (int (pos 1)) (
    field "attempt_id" v.attempt_id (
      field "launch_id" v.launch_id (
        field "request_sha256" v.request_sha256 (
          field "status" (str "terminal") (
            field "outcome" v.outcome (
              field "process" v.process (
                field "cleanup" v.cleanup (
                  field "exit_code" v.exit_code (
                    field "stdout" v.stdout (
                      field "stderr" v.stderr (
                        field "stdout_truncated" v.stdout_truncated (
                          field "stderr_truncated" v.stderr_truncated (
                            field "finished_at" v.finished_at (message_field v.message))))))))))))))

abbrev pub exit_json : Option ℤ → Json
exit_json none = null
exit_json (some z) = int z

abbrev pub text_json : Option String → Option Json
text_json none = none
text_json (some s) = some (str s)

abbrev null_or : Option String → Json
null_or none = null
null_or (some s) = str s

module _ (c : Codec) where
  -- The `to_dict` methods.
  unfoldable pub request_dict : SetupRequest → Fields
  unfolding request_fields script_dict
  request_dict r =
      request_fields (str r.attempt_id) (str r.launch_id) (str (format_time c r.deadline_utc))
        (obj (script_dict (str r.script.artifact_id) (int r.script.size) (str r.script.sha256)))
        (str r.request_sha256)

  abbrev job_key : Option String → String
  job_key none = "job_scope"
  job_key (some name) = "job_name"

  abbrev job_value : Option String → Option String → Json
  job_value none scope = null_or scope
  job_value (some name) scope = str name

  unfoldable pub receipt_dict : LaunchReceipt → Fields
  unfolding receipt_fields
  receipt_dict r =
      receipt_fields (str r.attempt_id) (str r.launch_id) (str r.request_sha256) (int r.keeper_pid)
        (str r.keeper_creation_time) (int r.root_pid) (str r.root_creation_time)
        (str (format_time c r.owned_at)) (job_key r.job_name) (job_value r.job_name r.job_scope)

  unfoldable pub terminal_values : SetupTerminal → TerminalValues
  unfolding outcome_text process_text cleanup_text
  terminal_values t = record {
    attempt_id = str t.attempt_id;
    launch_id = str t.launch_id;
    request_sha256 = str t.request_sha256;
    outcome = str (outcome_text t.outcome);
    process = str (process_text t.process);
    cleanup = str (cleanup_text t.cleanup);
    exit_code = exit_json t.exit_code;
    stdout = str t.stdout;
    stderr = str t.stderr;
    stdout_truncated = bool t.stdout_truncated;
    stderr_truncated = bool t.stderr_truncated;
    finished_at = str (format_time c t.finished_at);
    message = text_json t.message;
  }

  unfoldable pub terminal_dict : SetupTerminal → Fields
  unfolding terminal_fields terminal_values
  terminal_dict t = terminal_fields (terminal_values t)

  status_of : Bool → Option LaunchReceipt → String
  status_of true receipt = "ownership_unverified"
  status_of false (some r) = "owned"
  status_of false none = "accepted"

  receipt_field : Option LaunchReceipt → Fields
  receipt_field none = end
  receipt_field (some r) = field "receipt" (obj (receipt_dict r)) end

  view_without_terminal : SetupView → Fields
  unfolding status_of receipt_field
  view_without_terminal v = field "schema_version" (int (pos 1)) (
      field "attempt_id" (str v.request.attempt_id) (
        field "launch_id" (str v.request.launch_id) (
          field "request_sha256" (str v.request.request_sha256) (
            field "status" (str (status_of v.ownership_unverified v.receipt))
              (receipt_field v.receipt)))))

  view_by : SetupView → Option SetupTerminal → Fields
  view_by v (some t) = terminal_dict t
  view_by v none = view_without_terminal v

  -- `SetupView.to_dict`
  unfoldable pub view_dict : SetupView → Fields
  unfolding view_by view_without_terminal
  view_dict v = view_by v v.terminal
