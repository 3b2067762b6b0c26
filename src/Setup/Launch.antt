-- ===== src/Setup/Launch.antt =====
-- `accept_launch_request`, `launch_setup` and `_spawn_keeper` of
-- src/blendersessiond/setup_owner.py, as the program calls them: with the clock, the platform and
-- the keeper of the system.
use blendersessiond.Base.{
  ℕ, zero, suc, ◌-◌, ℤ, String, ◌<>◌, Bool, true, false, not, ◌||◌, Option, none, some, List, ltb,
  leb, str_eq, if◌then◌else◌,
}
use blendersessiond.Json.{str, Fields}
use blendersessiond.Json.Equal.{dict_eq}
use blendersessiond.Exec.{
  Error, os_error, value_error, type_error, runtime_error, assertion_error, session_error,
  already_running, setup_error, attempt_conflict, timeout_error, subprocess_error, wire_error,
  message, M, spawned, pure, throw, lift, system, emit, catch, ◌>>=◌, ◌>>◌,
}
use blendersessiond.Processes.Poll.{poll_for}
use blendersessiond.Processes.Start.{wait_for_process_start_time}
use blendersessiond.Sessions.Launch.{Spawned, running, spawn_failed}
use blendersessiond.Setup.Codec.{validate_attempt_id, max_deadline}
use blendersessiond.Setup.Records.{
  SetupRequest, LaunchReceipt, SetupTerminal, SetupView, launch_failed, not_started, Cleanup, owned,
  request_dict,
}
use blendersessiond.Setup.Parse.{parse_request}
use blendersessiond.Setup.Attempt.{
  SetupHost, Attempts, request_json, dispatch_marker, stop_marker, guarded, with_setup_lock,
  read_optional_record, write_create_once, touch_create_once,
}
use blendersessiond.Setup.View.{read_view, write_terminal}

-- `view.terminal is not None or view.receipt is not None`
abbrev pub settled_by : Option SetupTerminal → Option LaunchReceipt → Bool
settled_by (some t) receipt = true
settled_by none (some r) = true
settled_by none none = false

unfoldable pub is_settled : SetupView → Bool
is_settled view = settled_by view.terminal view.receipt

-- The name of an exception's class, where the subclasses of `OSError` are not told apart.
unfoldable pub class_name : Error → String
class_name (os_error m) = "OSError"
class_name (value_error m) = "ValueError"
class_name (type_error m) = "TypeError"
class_name (runtime_error m) = "RuntimeError"
class_name (assertion_error m) = "AssertionError"
class_name (session_error m) = "SessionError"
class_name (already_running m) = "AlreadyRunningError"
class_name (setup_error m) = "SetupOwnerError"
class_name (attempt_conflict m) = "AttemptConflictError"
class_name (timeout_error m) = "TimeoutError"
class_name (subprocess_error m) = "SubprocessError"
class_name (wire_error r m) = "WireError"

-- `text[:n]`
unfoldable pub take_text : ℕ → String → String
take_text zero s = ""
take_text (suc n) String.[] = ""
take_text (suc n) (String.◌∷◌ c s) = String.◌∷◌ c (take_text n s)

unfoldable pub failure_text : Error → String
unfolding class_name take_text
failure_text e = take_text 4096 (class_name e <> ": " <> message e)

-- `except (OSError, RuntimeError, ValueError)`
unfoldable pub is_reported : Error → Bool
is_reported (type_error m) = false
is_reported (assertion_error m) = false
is_reported (subprocess_error m) = false
is_reported _ = true

-- What the lock block found: an answer, or whether this process dispatches the keeper.
pub data Decision : Type 0 where
  answered : SetupView → Decision
  proceed : Bool → Decision

module _ {S : Type 0} (h : SetupHost S) where
  open h use {kernel, codec}

  unfoldable pub require_windows : M S Attempts Unit
  require_windows =
      if not (str_eq h.system_name "Windows")
      then throw (setup_error "Windows setup ownership is unavailable on this platform.")
      else pure tt

  unfoldable pub accept_new : String → SetupRequest → ℕ → M S Attempts Unit
  accept_new id request now =
      if leb request.deadline_utc now || ltb max_deadline (request.deadline_utc - now)
      then throw (setup_error "Setup launch deadline must be within five minutes.")
      else write_create_once h id request_json (request_dict codec request)

  unfoldable pub accept_existing : String → SetupRequest → ℕ → Option Fields → M S Attempts Unit
  unfolding accept_new
  accept_existing id request now none = accept_new id request now
  accept_existing id request now (some existing) =
      if dict_eq existing (request_dict codec request)
      then pure tt
      else throw (attempt_conflict "Setup Attempt already contains a different request.")

  unfoldable pub accept_launch_request : List ℕ → M S Attempts SetupRequest
  unfolding accept_existing
  accept_launch_request raw_request = do
    now ← system h.utc_now
    request ← lift (parse_request codec raw_request)
    id ← lift (validate_attempt_id (str request.attempt_id))
    guarded h (pure tt)
    with_setup_lock h id (do
      existing ← read_optional_record h id request_json
      accept_existing id request now existing)
    pure request

  unfoldable pub spawned_pid : Spawned → M S Attempts ℤ
  spawned_pid (running pid) = do emit (spawned pid); pure pid
  spawned_pid (spawn_failed m) = throw (os_error m)

  unfoldable pub acknowledged : Option String → M S Attempts Unit
  acknowledged none =
      throw (setup_error "The setup keeper exited before ownership acknowledgement.")
  acknowledged (some start_time) = pure tt

  unfoldable pub spawn_keeper : String → M S Attempts Unit
  unfolding spawned_pid acknowledged
  spawn_keeper id = do
    pid ← guarded h (do answer ← system (h.spawn_keeper id); spawned_pid answer)
    start_time ← wait_for_process_start_time kernel pid
    acknowledged start_time

  -- Under the lock: what others have settled stands; else the launch has failed.
  unfoldable pub fail_unless : String → SetupRequest → String → SetupView → M S Attempts SetupView
  fail_unless id request text view = if is_settled view then pure view else do
    touch_create_once h id stop_marker
    now ← system h.utc_now
    write_terminal h id request
        (owned request launch_failed not_started Cleanup.cleanup_unverified now (some text))

  unfoldable pub fail_launch : String → SetupRequest → String → M S Attempts SetupView
  unfolding fail_unless
  fail_launch id request text =
      with_setup_lock h id (do view ← read_view h id request; fail_unless id request text view)

  unfoldable pub report_failure : String → SetupRequest → Error → M S Attempts (Option SetupView)
  report_failure id request e =
      if is_reported e
      then (do view ← fail_launch id request (failure_text e); pure (some view))
      else throw e

  unfoldable pub dispatch : String → SetupRequest → Bool → M S Attempts (Option SetupView)
  unfolding report_failure
  dispatch id request true = catch (do spawn_keeper id; pure none) (report_failure id request)
  dispatch id request false = pure none

  unfoldable pub decide : String → SetupView → M S Attempts Decision
  decide id view =
      if is_settled view
      then pure (answered view)
      else do fresh ← touch_create_once h id dispatch_marker; pure (proceed fresh)

  unfoldable pub settled_round : String → SetupRequest → M S Attempts (Option SetupView)
  settled_round id request = do
    view ← read_view h id request
    pure (if is_settled view then some view else none)

  unfoldable pub or_fail : String → SetupRequest → Option SetupView → M S Attempts SetupView
  or_fail id request (some view) = pure view
  or_fail id request none =
      fail_launch id request "The keeper did not acknowledge ownership before the launch bound."

  -- The wait for the keeper's acknowledgement.
  unfoldable pub await_keeper : String → SetupRequest → Option SetupView → M S Attempts SetupView
  unfolding settled_round or_fail
  await_keeper id request (some view) = pure view
  await_keeper id request none = do
    settled ← poll_for kernel 20 15000 (settled_round id request)
    or_fail id request settled

  unfoldable pub after_decision : String → SetupRequest → Decision → M S Attempts SetupView
  unfolding dispatch
  after_decision id request (answered view) = pure view
  after_decision id request (proceed fresh) = do
    failed ← dispatch id request fresh
    await_keeper id request failed

  unfoldable pub launch_setup : List ℕ → M S Attempts SetupView
  unfolding decide after_decision
  launch_setup raw_request = do
    require_windows
    request ← accept_launch_request raw_request
    id ← lift (validate_attempt_id (str request.attempt_id))
    decision ← with_setup_lock h id (do view ← read_view h id request; decide id view)
    after_decision id request decision
