-- ===== src/Setup/View.antt =====
-- `_read_view`, `_load_request`, `_check_fence`, `_publish_terminal`, the process states and
-- `_reconcile_owner_loss` and `_reconcile_after_stop` of src/blendersessiond/setup_owner.py.
use blendersessiond.Base.{
  ℕ, ℤ, String, ◌<>◌, show, Bool, true, false, not, ◌||◌, Option, none, some, str_eq, if◌then◌else◌,
}
use blendersessiond.Json.{str, Fields}
use blendersessiond.Exec.{
  Result, err, M, setup_error, os_error, pure, throw, lift, system, ◌>>=◌, ◌>>◌,
}
use blendersessiond.Processes.Identity.{process_matches}
use blendersessiond.Processes.Poll.{poll_for}
use blendersessiond.Processes.Tree.{is_windows}
use blendersessiond.Setup.Codec.{validate_sha256, validate_launch_id}
use blendersessiond.Setup.Records.{
  SetupRequest, LaunchReceipt, SetupTerminal, SetupView, Outcome, TerminalProcess, Cleanup, owned,
  accepted_view, owned_view, terminal_view, unverified_view, terminal_dict,
}
use blendersessiond.Setup.Parse.{request_from_record}
use blendersessiond.Setup.Stored.{receipt_from_record, terminal_from_record}
use blendersessiond.Setup.Attempt.{
  SetupHost, Attempts, request_json, launch_receipt_json, terminal_json, Opened, opened,
  invalid_parameter, open_refused, Waited, object_signalled, wait_timeout, wait_failed,
  with_setup_lock, read_optional_record, write_create_once,
}

pub data ProcessState : Type 0 where
  same absent different unknown : ProcessState

-- `state != "matches"`
abbrev pub is_same : ProcessState → Bool
is_same same = true
is_same _ = false

-- `_process_is_gone`
abbrev pub process_is_gone : ProcessState → Bool
process_is_gone absent = true
process_is_gone different = true
process_is_gone _ = false

abbrev pub is_unknown : ProcessState → Bool
is_unknown unknown = true
is_unknown _ = false

-- `state in {"matches", "unknown"}`
abbrev pub may_live : ProcessState → Bool
may_live state = is_same state || is_unknown state

abbrev pub windows_time : ℕ → String
windows_time filetime = "windows:" <> show filetime

abbrev waited_state : Waited → ProcessState
waited_state object_signalled = absent
waited_state wait_timeout = same
waited_state wait_failed = unknown

abbrev pub ended_view : SetupView → Option SetupTerminal → Option SetupView
ended_view view none = none
ended_view view (some terminal) = some view

module _ {S : Type 0} (h : SetupHost S) where
  open h use {kernel, codec}

  unfoldable pub state_of_identity : ℤ → String → Option ℕ → M S Attempts ProcessState
  state_of_identity pid expected none = pure unknown
  state_of_identity pid expected (some filetime) =
      if not (str_eq (windows_time filetime) expected)
      then pure different
      else do waited ← system (h.wait_process pid); pure (waited_state waited)

  unfoldable pub state_of_handle : ℤ → String → Opened → M S Attempts ProcessState
  unfolding state_of_identity
  state_of_handle pid expected invalid_parameter = pure absent
  state_of_handle pid expected open_refused = pure unknown
  state_of_handle pid expected opened = do
    filetime ← system (h.creation_filetime pid)
    state_of_identity pid expected filetime

  -- `exact_process_state` of windows_setup_process.py
  unfoldable pub exact_process_state : ℤ → String → M S Attempts ProcessState
  unfolding state_of_handle
  exact_process_state pid expected_creation_time = do
    handle ← system (h.open_process pid)
    state_of_handle pid expected_creation_time handle

  unfoldable pub process_state : ℤ → String → M S Attempts ProcessState
  process_state pid creation_time =
      if is_windows kernel.platform then exact_process_state pid creation_time else do
        matches ← process_matches kernel pid creation_time
        pure (if matches then same else absent)

  unfoldable pub kill_outcome : Option String → M S Attempts Unit
  kill_outcome none = pure tt
  kill_outcome (some m) = throw (os_error m)

  unfoldable pub kill_identity : ℤ → String → Option ℕ → M S Attempts Unit
  unfolding kill_outcome
  kill_identity pid expected none = throw (os_error "GetProcessTimes failed")
  kill_identity pid expected (some filetime) =
      if not (str_eq (windows_time filetime) expected) then pure tt else do
        trouble ← system (h.terminate_process pid)
        kill_outcome trouble
        system (h.wait_process pid)
        pure tt

  unfoldable pub kill_handle : ℤ → String → Opened → M S Attempts Unit
  unfolding kill_identity
  kill_handle pid expected invalid_parameter = pure tt
  kill_handle pid expected open_refused = throw (os_error "OpenProcess failed")
  kill_handle pid expected opened = do
    filetime ← system (h.creation_filetime pid)
    kill_identity pid expected filetime

  -- `terminate_exact_process` of windows_setup_process.py
  unfoldable pub terminate_exact_process : ℤ → String → M S Attempts Unit
  unfolding kill_handle
  terminate_exact_process pid expected_creation_time = do
    handle ← system (h.open_process pid)
    kill_handle pid expected_creation_time handle

  unfoldable pub view_of_receipt : SetupRequest → Option Fields → M S Attempts SetupView
  view_of_receipt request none = pure (accepted_view request)
  view_of_receipt request (some payload) = do
    receipt ← lift (receipt_from_record codec payload request)
    pure (owned_view request receipt)

  unfoldable pub view_of_terminal : String → SetupRequest → Option Fields → M S Attempts SetupView
  unfolding view_of_receipt
  view_of_terminal id request none = do
    payload ← read_optional_record h id launch_receipt_json
    view_of_receipt request payload
  view_of_terminal id request (some payload) = do
    terminal ← lift (terminal_from_record codec payload request)
    pure (terminal_view request terminal)

  unfoldable pub read_view : String → SetupRequest → M S Attempts SetupView
  unfolding view_of_terminal view_of_receipt
  read_view id request = do
    payload ← read_optional_record h id terminal_json
    view_of_terminal id request payload

  unfoldable pub request_of : Option Fields → Result SetupRequest
  request_of none = err (setup_error "The Setup Attempt was not found.")
  request_of (some payload) = request_from_record codec payload

  unfoldable pub load_request : String → M S Attempts SetupRequest
  unfolding request_of
  load_request id = do payload ← read_optional_record h id request_json; lift (request_of payload)

  unfoldable pub check_fence : SetupRequest → String → String → M S Attempts Unit
  check_fence request request_sha256 launch_id = do
    sha256 ← lift (validate_sha256 (str request_sha256))
    launch ← lift (validate_launch_id (str launch_id))
    if not (str_eq sha256 request.request_sha256)
        then throw (setup_error "The expected request SHA-256 does not match.")
        else if not (str_eq launch request.launch_id)
        then throw (setup_error "The expected Launch ID does not match.")
        else pure tt

  -- Write the terminal record; this process holds the lock.
  unfoldable pub write_terminal : String → SetupRequest → SetupTerminal → M S Attempts SetupView
  write_terminal id request terminal = do
    write_create_once h id terminal_json (terminal_dict codec terminal)
    pure (terminal_view request terminal)

  unfoldable pub publish_or_keep :
      String → SetupRequest → SetupTerminal → Option Fields → M S Attempts SetupView
  publish_or_keep id request terminal none = write_terminal id request terminal
  publish_or_keep id request terminal (some payload) = do
    existing ← lift (terminal_from_record codec payload request)
    pure (terminal_view request existing)

  unfoldable pub publish_terminal : String → SetupRequest → SetupTerminal → M S Attempts SetupView
  unfolding publish_or_keep
  publish_terminal id request terminal = with_setup_lock h id (do
    payload ← read_optional_record h id terminal_json
    publish_or_keep id request terminal payload)

  -- `SetupTerminal.owned(…, finished_at=datetime.now(UTC))`, and what is done with it.
  unfoldable pub publish_now :
      String
      → SetupRequest
      → Outcome
      → TerminalProcess
      → Cleanup
      → Option String
      → M S Attempts SetupView
  publish_now id request outcome process cleanup message = do
    now ← system h.utc_now
    publish_terminal id request (owned request outcome process cleanup now message)

  -- A round of the wait for a terminal record.
  unfoldable pub ended_round : String → SetupRequest → M S Attempts (Option SetupView)
  ended_round id request = do view ← read_view id request; pure (ended_view view view.terminal)

  unfoldable pub after_stop :
      String → SetupRequest → LaunchReceipt → Option SetupView → M S Attempts SetupView
  after_stop id request receipt (some view) = pure view
  after_stop id request receipt none = do
    keeper ← process_state receipt.keeper_pid receipt.keeper_creation_time
    root ← process_state receipt.root_pid receipt.root_creation_time
    if may_live keeper || is_unknown root
        then pure (unverified_view request receipt)
        else publish_now id request Outcome.cleanup_unverified TerminalProcess.cancelled
            Cleanup.cleanup_unverified none

  unfoldable pub reconcile_after_stop :
      String → SetupRequest → LaunchReceipt → M S Attempts SetupView
  unfolding after_stop
  reconcile_after_stop id request receipt = do
    ended ← poll_for kernel 50 10000 (ended_round id request)
    after_stop id request receipt ended

  -- A round of the wait for the root process: the keeper lives, or the root is gone.
  unfoldable pub loss_round : LaunchReceipt → M S Attempts (Option Bool)
  loss_round receipt = do
    keeper ← process_state receipt.keeper_pid receipt.keeper_creation_time
    if is_same keeper then pure (some true) else do
      root ← process_state receipt.root_pid receipt.root_creation_time
      pure (if process_is_gone root then some false else none)

  -- The keeper is gone; the root process decides.
  unfoldable pub lost_root : String → SetupRequest → LaunchReceipt → M S Attempts SetupView
  lost_root id request receipt = do
    root ← process_state receipt.root_pid receipt.root_creation_time
    if is_unknown root
        then pure (unverified_view request receipt)
        else publish_now id request Outcome.cleanup_unverified TerminalProcess.owner_lost
            Cleanup.cleanup_unverified none

  unfoldable pub after_loss :
      String → SetupRequest → LaunchReceipt → Option Bool → M S Attempts SetupView
  unfolding lost_root
  after_loss id request receipt (some true) = pure (owned_view request receipt)
  after_loss id request receipt _ = do
    keeper ← process_state receipt.keeper_pid receipt.keeper_creation_time
    if is_same keeper
        then pure (owned_view request receipt)
        else if is_unknown keeper
        then pure (unverified_view request receipt)
        else lost_root id request receipt

  unfoldable pub reconcile_owner_loss :
      String → SetupRequest → LaunchReceipt → M S Attempts SetupView
  unfolding after_loss
  reconcile_owner_loss id request receipt = do
    found ← poll_for kernel 20 2000 (loss_round receipt)
    after_loss id request receipt found
