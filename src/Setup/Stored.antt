-- ===== src/Setup/Stored.antt =====
-- `_receipt_from_record` and `_terminal_from_record` of src/blendersessiond/setup_owner.py.
use blendersessiond.Base.{
  ℕ, ◌+◌, ℤ, between, is_positive, String, ◌<>◌, Bool, Option, none, some, List, [], ◌∷◌, ltb, leb,
  length, codes, str_eq, if◌then◌else◌,
}
use blendersessiond.Json.{Json, null, bool, int, str, arr, obj, Fields, get}
use blendersessiond.Json.Equal.{dict_eq}
use blendersessiond.Exec.{Error, Result, ok, err, setup_error, type_error}
use blendersessiond.Sessions.Record.{◌>>=◌, ◌>>◌}
use blendersessiond.Setup.Codec.{Codec, parse_time, format_time, max_output_bytes}
use blendersessiond.Setup.Records.{
  SetupRequest, LaunchReceipt, SetupTerminal, Outcome, TerminalProcess, Cleanup, launch_failed,
  process_failed, process_succeeded, stopped, stopped_before_ownership, cancelled_before_resume,
  exited, failed, not_resumed, not_started, tree_gone, receipt_fields, TerminalValues,
  terminal_fields,
}
use blendersessiond.Setup.Parse.{require, is_string, found_or}
use blendersessiond.Setup.Semantics.{terminal_semantics_are_valid}

abbrev pub job_scope_name : String
job_scope_name = "unnamed-kill-on-close"

unfoldable pub legacy_job_name : String → String
legacy_job_name launch_id = "Local\\BlenderSessiond.Setup." <> launch_id

-- `payload.get(key)`, where a missing key and null are the same.
abbrev pub or_null : Option Json → Option Json
or_null (some null) = none
or_null other = other

abbrev pub positive_int : Error → Json → Result ℤ
positive_int e (int z) = if is_positive z then ok z else err e
positive_int e _ = err e

abbrev pub a_text : Error → Json → Result String
a_text e (str s) = ok s
a_text e _ = err e

abbrev pub a_bool : Error → Json → Result Bool
a_bool e (bool b) = ok b
a_bool e _ = err e

abbrev echo_key : Option Json → String
echo_key none = "job_scope"
echo_key (some name) = "job_name"

abbrev echo_value : Option Json → Option Json → Json
echo_value none none = null
echo_value none (some scope) = scope
echo_value (some name) scope = name

-- The unnamed Job Object, or the named one of an earlier version.
abbrev pub job_of :
    Error → String → Option Json → Option Json → Result (Option String × Option String)
job_of e launch_id (some (str scope)) none =
    if str_eq scope job_scope_name then ok (some scope, none) else err e
job_of e launch_id none (some (str name)) =
    if str_eq name (legacy_job_name launch_id) then ok (none, some name) else err e
job_of e launch_id _ _ = err e

abbrev pub receipt_stale : Error
receipt_stale = setup_error "Setup launch receipt is invalid or stale."

abbrev pub terminal_stale : Error
terminal_stale = setup_error "Setup terminal record is invalid or stale."

-- The bytes of a text in UTF-8.
abbrev pub utf8_width : ℕ → ℕ
utf8_width c = if ltb c 128 then 1 else if ltb c 2048 then 2 else if ltb c 65536 then 3 else 4

unfoldable pub utf8_length : List ℕ → ℕ
utf8_length [] = 0
utf8_length (c ∷ cs) = utf8_width c + utf8_length cs

unfoldable pub outcomes : List (String × Outcome)
outcomes =
    ("cancelled", Outcome.cancelled)
    ∷ ("cleanup_unverified", Outcome.cleanup_unverified)
    ∷ ("launch_failed", launch_failed)
    ∷ ("owner_lost", Outcome.owner_lost)
    ∷ ("process_failed", process_failed)
    ∷ ("process_succeeded", process_succeeded)
    ∷ ("stopped", stopped)
    ∷ ("stopped_before_ownership", stopped_before_ownership)
    ∷ ("timed_out", Outcome.timed_out)
    ∷ []

unfoldable pub processes : List (String × TerminalProcess)
processes =
    ("cancelled", TerminalProcess.cancelled)
    ∷ ("cancelled_before_resume", cancelled_before_resume)
    ∷ ("exited", exited)
    ∷ ("failed", failed)
    ∷ ("not_resumed", not_resumed)
    ∷ ("not_started", not_started)
    ∷ ("owner_lost", TerminalProcess.owner_lost)
    ∷ ("timed_out", TerminalProcess.timed_out)
    ∷ []

unfoldable pub cleanups : List (String × Cleanup)
cleanups = ("cleanup_unverified", Cleanup.cleanup_unverified) ∷ ("tree_gone", tree_gone) ∷ []

unfoldable pub named : {A : Type 0} → String → List (String × A) → Result A
named text [] = err terminal_stale
named text ((name, a) ∷ rest) = if str_eq name text then ok a else named text rest

-- `value in NAMES`, where a list or a dict is not hashable.
unfoldable pub member_of : {A : Type 0} → List (String × A) → Json → Result A
unfolding named
member_of names (str text) = named text names
member_of names (arr xs) = err (type_error "unhashable type: 'list'")
member_of names (obj fields) = err (type_error "unhashable type: 'dict'")
member_of names _ = err terminal_stale

abbrev pub exit_code_of : Json → Result (Option ℤ)
exit_code_of null = ok none
exit_code_of (int z) = if between 0 4294967295 z then ok (some z) else err terminal_stale
exit_code_of _ = err terminal_stale

abbrev pub message_of : Option Json → Result (Option String)
message_of none = ok none
message_of (some (str s)) = if leb (length (codes s)) 4096 then ok (some s) else err terminal_stale
message_of (some other) = err terminal_stale

module _ (c : Codec) where
  unfoldable pub receipt_from_record : Fields → SetupRequest → Result LaunchReceipt
  unfolding receipt_fields legacy_job_name
  receipt_from_record payload request = do
    let invalid = setup_error "Setup launch receipt is invalid."
    attempt_id ← found_or invalid (get "attempt_id" payload)
    launch_id ← found_or invalid (get "launch_id" payload)
    request_sha256 ← found_or invalid (get "request_sha256" payload)
    keeper_pid ← found_or invalid (get "keeper_pid" payload)
    keeper_time ← found_or invalid (get "keeper_creation_time" payload)
    root_pid ← found_or invalid (get "root_pid" payload)
    root_time ← found_or invalid (get "root_creation_time" payload)
    owned_value ← found_or invalid (get "owned_at" payload)
    owned_at ← parse_time c owned_value "owned_at"
    let name = or_null (get "job_name" payload)
    let scope = or_null (get "job_scope" payload)
    require
        (dict_eq payload (
          receipt_fields attempt_id launch_id request_sha256 keeper_pid keeper_time root_pid
            root_time (str (format_time c owned_at)) (echo_key name) (echo_value name scope)))
        "Setup launch receipt is invalid or stale."
    require (is_string (some attempt_id) request.attempt_id)
        "Setup launch receipt is invalid or stale."
    require (is_string (some launch_id) request.launch_id)
        "Setup launch receipt is invalid or stale."
    require (is_string (some request_sha256) request.request_sha256)
        "Setup launch receipt is invalid or stale."
    keeper ← positive_int receipt_stale keeper_pid
    keeper_text ← a_text receipt_stale keeper_time
    root ← positive_int receipt_stale root_pid
    root_text ← a_text receipt_stale root_time
    job ← job_of receipt_stale request.launch_id scope name
    ok (record {
      attempt_id = request.attempt_id;
      launch_id = request.launch_id;
      request_sha256 = request.request_sha256;
      keeper_pid = keeper;
      keeper_creation_time = keeper_text;
      root_pid = root;
      root_creation_time = root_text;
      job_scope = job.0;
      owned_at = owned_at;
      job_name = job.1;
    })

  -- The `try` block: the values of the record, and its time.
  unfoldable pub stored_values : Fields → Result (TerminalValues × ℕ)
  stored_values payload = do
    let invalid = setup_error "Setup terminal record is invalid."
    attempt_id ← found_or invalid (get "attempt_id" payload)
    launch_id ← found_or invalid (get "launch_id" payload)
    request_sha256 ← found_or invalid (get "request_sha256" payload)
    outcome ← found_or invalid (get "outcome" payload)
    process ← found_or invalid (get "process" payload)
    cleanup ← found_or invalid (get "cleanup" payload)
    exit_code ← found_or invalid (get "exit_code" payload)
    stdout_value ← found_or invalid (get "stdout" payload)
    stdout ← a_text invalid stdout_value
    stderr_value ← found_or invalid (get "stderr" payload)
    stderr ← a_text invalid stderr_value
    stdout_truncated ← found_or invalid (get "stdout_truncated" payload)
    stderr_truncated ← found_or invalid (get "stderr_truncated" payload)
    finished_value ← found_or invalid (get "finished_at" payload)
    finished_at ← parse_time c finished_value "finished_at"
    ok (
      record {
        attempt_id = attempt_id;
        launch_id = launch_id;
        request_sha256 = request_sha256;
        outcome = outcome;
        process = process;
        cleanup = cleanup;
        exit_code = exit_code;
        stdout = str stdout;
        stderr = str stderr;
        stdout_truncated = stdout_truncated;
        stderr_truncated = stderr_truncated;
        finished_at = str (format_time c finished_at);
        message = or_null (get "message" payload);
      },
      finished_at,
    )

  -- The conditions of `valid`, in order.
  unfoldable pub checked_terminal :
      Fields → SetupRequest → TerminalValues → ℕ → Result SetupTerminal
  unfolding terminal_fields outcomes processes cleanups member_of
  checked_terminal payload request v finished_at = do
    require (dict_eq payload (terminal_fields v)) "Setup terminal record is invalid or stale."
    require (is_string (some v.attempt_id) request.attempt_id)
        "Setup terminal record is invalid or stale."
    require (is_string (some v.launch_id) request.launch_id)
        "Setup terminal record is invalid or stale."
    require (is_string (some v.request_sha256) request.request_sha256)
        "Setup terminal record is invalid or stale."
    outcome ← member_of outcomes v.outcome
    process ← member_of processes v.process
    cleanup ← member_of cleanups v.cleanup
    exit_code ← exit_code_of v.exit_code
    stdout_truncated ← a_bool terminal_stale v.stdout_truncated
    stderr_truncated ← a_bool terminal_stale v.stderr_truncated
    stdout ← a_text terminal_stale v.stdout
    stderr ← a_text terminal_stale v.stderr
    require (leb (utf8_length (codes stdout)) max_output_bytes)
        "Setup terminal record is invalid or stale."
    require (leb (utf8_length (codes stderr)) max_output_bytes)
        "Setup terminal record is invalid or stale."
    message ← message_of v.message
    let terminal : SetupTerminal = record {
      attempt_id = request.attempt_id;
      launch_id = request.launch_id;
      request_sha256 = request.request_sha256;
      outcome = outcome;
      process = process;
      cleanup = cleanup;
      exit_code = exit_code;
      stdout = stdout;
      stderr = stderr;
      stdout_truncated = stdout_truncated;
      stderr_truncated = stderr_truncated;
      finished_at = finished_at;
      message = message;
    }
    require (terminal_semantics_are_valid terminal) "Setup terminal record is invalid or stale."
    ok terminal

  unfoldable pub terminal_from_record : Fields → SetupRequest → Result SetupTerminal
  unfolding stored_values checked_terminal
  terminal_from_record payload request = do
    values ← stored_values payload
    checked_terminal payload request values.0 values.1
