-- ===== src/Setup/Stop.antt =====
-- `status_setup` and `stop_setup` of src/blendersessiond/setup_owner.py.
use blendersessiond.Base.{
  String, Bool, true, false, not, ◌||◌, Option, none, some, ltb, if◌then◌else◌,
}
use blendersessiond.Json.{str}
use blendersessiond.Exec.{
  Error, os_error, runtime_error, timeout_error, session_error, already_running, setup_error,
  attempt_conflict, wire_error, M, pure, throw, lift, system, catch, ◌>>=◌, ◌>>◌,
}
use blendersessiond.Processes.Poll.{poll_for}
use blendersessiond.Setup.Codec.{validate_attempt_id}
use blendersessiond.Setup.Records.{
  SetupRequest, LaunchReceipt, SetupTerminal, SetupView, launch_failed, not_started,
  stopped_before_ownership, tree_gone, Cleanup, owned, unverified_view,
}
use blendersessiond.Setup.Attempt.{
  SetupHost, Attempts, dispatch_marker, stop_marker, with_setup_lock, marker_exists,
  touch_create_once,
}
use blendersessiond.Setup.View.{
  ProcessState, same, unknown, is_same, may_live, process_state, terminate_exact_process, read_view,
  load_request, check_fence, write_terminal, publish_now, reconcile_after_stop,
  reconcile_owner_loss,
}
use blendersessiond.Setup.Launch.{is_settled, require_windows, fail_launch}

-- `except (OSError, RuntimeError)`
unfoldable pub is_kill_failure : Error → Bool
is_kill_failure (os_error m) = true
is_kill_failure (timeout_error m) = true
is_kill_failure (runtime_error m) = true
is_kill_failure (session_error m) = true
is_kill_failure (already_running m) = true
is_kill_failure (setup_error m) = true
is_kill_failure (attempt_conflict m) = true
is_kill_failure (wire_error r m) = true
is_kill_failure _ = false

abbrev pub returned : SetupView → Option SetupTerminal → Option SetupView
returned view (some terminal) = some view
returned view none = none

abbrev pub loop_result : Option SetupView → Option (Option SetupView)
loop_result none = none
loop_result (some view) = some (returned view view.terminal)

module _ {S : Type 0} (h : SetupHost S) where
  open h use {kernel}

  -- A dispatch that nobody acknowledged, behind its deadline, has failed.
  unfoldable pub unowned_status : String → SetupRequest → SetupView → Bool → M S Attempts SetupView
  unowned_status id request view dispatched = do
    now ← if dispatched then system h.utc_now else pure 0
    if not dispatched || ltb now request.deadline_utc
        then pure view
        else fail_launch h id request "The dispatched keeper did not acknowledge ownership."

  unfoldable pub status_by_keeper :
      String → SetupRequest → SetupView → LaunchReceipt → ProcessState → M S Attempts SetupView
  status_by_keeper id request view receipt same = pure view
  status_by_keeper id request view receipt unknown = pure (unverified_view request receipt)
  status_by_keeper id request view receipt _ = reconcile_owner_loss h id request receipt

  unfoldable pub status_by_receipt :
      String → SetupRequest → SetupView → Option LaunchReceipt → M S Attempts SetupView
  unfolding unowned_status status_by_keeper
  status_by_receipt id request view none = do
    dispatched ← marker_exists h id dispatch_marker
    unowned_status id request view dispatched
  status_by_receipt id request view (some receipt) = do
    keeper ← process_state h receipt.keeper_pid receipt.keeper_creation_time
    status_by_keeper id request view receipt keeper

  unfoldable pub status_by_terminal :
      String → SetupRequest → SetupView → Option SetupTerminal → M S Attempts SetupView
  unfolding status_by_receipt
  status_by_terminal id request view (some terminal) = pure view
  status_by_terminal id request view none = status_by_receipt id request view view.receipt

  unfoldable pub status_setup : String → String → String → M S Attempts SetupView
  unfolding status_by_terminal
  status_setup attempt_id expected_request_sha256 expected_launch_id = do
    require_windows h
    id ← lift (validate_attempt_id (str attempt_id))
    request ← load_request h id
    check_fence h request expected_request_sha256 expected_launch_id
    view ← read_view h id request
    status_by_terminal id request view view.terminal

  unfoldable pub kill_keeper : SetupRequest → LaunchReceipt → M S Attempts (Option SetupView)
  kill_keeper request receipt =
      catch
        (do terminate_exact_process h receipt.keeper_pid receipt.keeper_creation_time; pure none)
        (λ e. if is_kill_failure e then pure (some (unverified_view request receipt)) else throw e)

  unfoldable pub after_kill :
      String → SetupRequest → LaunchReceipt → Option SetupView → M S Attempts SetupView
  after_kill id request receipt (some view) = pure view
  after_kill id request receipt none = reconcile_after_stop h id request receipt

  unfoldable pub stop_by_keeper :
      String → SetupRequest → LaunchReceipt → ProcessState → M S Attempts SetupView
  unfolding after_kill
  stop_by_keeper id request receipt keeper = do
    failed ← if may_live keeper then kill_keeper request receipt else pure none
    after_kill id request receipt failed

  -- The loop's end: a terminal view is returned; a keeper that is gone breaks.
  unfoldable pub keeper_round_by :
      SetupRequest
      → LaunchReceipt
      → SetupView
      → Option SetupTerminal
      → M S Attempts (Option (Option SetupView))
  keeper_round_by request receipt view (some terminal) = pure (some (some view))
  keeper_round_by request receipt view none = do
    keeper ← process_state h receipt.keeper_pid receipt.keeper_creation_time
    pure (if is_same keeper then none else some none)

  unfoldable pub keeper_round :
      String → SetupRequest → LaunchReceipt → M S Attempts (Option (Option SetupView))
  unfolding keeper_round_by
  keeper_round id request receipt = do
    view ← read_view h id request
    keeper_round_by request receipt view view.terminal

  unfoldable pub after_keeper_wait :
      String → SetupRequest → LaunchReceipt → Option (Option SetupView) → M S Attempts SetupView
  unfolding stop_by_keeper
  after_keeper_wait id request receipt (some (some view)) = pure view
  after_keeper_wait id request receipt _ = do
    keeper ← process_state h receipt.keeper_pid receipt.keeper_creation_time
    stop_by_keeper id request receipt keeper

  unfoldable pub stop_owned : String → SetupRequest → LaunchReceipt → M S Attempts SetupView
  unfolding after_keeper_wait
  stop_owned id request receipt = do
    ended ← poll_for kernel 50 10000 (keeper_round id request receipt)
    after_keeper_wait id request receipt ended

  unfoldable pub stop_by_receipt :
      String → SetupRequest → Option LaunchReceipt → M S Attempts SetupView
  unfolding stop_owned
  stop_by_receipt id request (some receipt) = stop_owned id request receipt
  stop_by_receipt id request none =
      publish_now h id request launch_failed not_started Cleanup.cleanup_unverified
        (some "Stop could not obtain a keeper ownership acknowledgement.")

  unfoldable pub stop_by_view :
      String → SetupRequest → SetupView → Option SetupTerminal → M S Attempts SetupView
  unfolding stop_by_receipt
  stop_by_view id request view (some terminal) = pure view
  stop_by_view id request view none = stop_by_receipt id request view.receipt

  -- The loop's end: a terminal view is returned, a receipt breaks.
  unfoldable pub acknowledged_round : String → SetupRequest → M S Attempts (Option SetupView)
  acknowledged_round id request = do
    view ← read_view h id request
    pure (if is_settled view then some view else none)

  unfoldable pub after_acknowledgement_by :
      String → SetupRequest → Option (Option SetupView) → M S Attempts SetupView
  unfolding stop_by_view
  after_acknowledgement_by id request (some (some view)) = pure view
  after_acknowledgement_by id request _ = do
    view ← read_view h id request
    stop_by_view id request view view.terminal

  -- Behind the lock, with the stop marker set.
  unfoldable pub stop_marked : String → SetupRequest → M S Attempts SetupView
  unfolding acknowledged_round after_acknowledgement_by
  stop_marked id request = do
    settled ← poll_for kernel 20 10000 (acknowledged_round id request)
    after_acknowledgement_by id request (loop_result settled)

  -- No receipt and no dispatch: nothing was started, and nothing will be.
  unfoldable pub stop_undispatched : String → SetupRequest → Bool → M S Attempts (Option SetupView)
  stop_undispatched id request false = do
    now ← system h.utc_now
    view ←
        write_terminal h id request
          (owned request stopped_before_ownership not_started tree_gone now none)
    pure (some view)
  stop_undispatched id request true = do touch_create_once h id stop_marker; pure none

  unfoldable pub stop_under_lock_by :
      String
      → SetupRequest
      → SetupView
      → Option SetupTerminal
      → Option LaunchReceipt
      → M S Attempts (Option SetupView)
  unfolding stop_undispatched
  stop_under_lock_by id request view (some terminal) receipt = pure (some view)
  stop_under_lock_by id request view none (some receipt) = do
    touch_create_once h id stop_marker
    pure none
  stop_under_lock_by id request view none none = do
    dispatched ← marker_exists h id dispatch_marker
    stop_undispatched id request dispatched

  unfoldable pub stop_under_lock : String → SetupRequest → M S Attempts (Option SetupView)
  unfolding stop_under_lock_by
  stop_under_lock id request = do
    view ← read_view h id request
    stop_under_lock_by id request view view.terminal view.receipt

  unfoldable pub after_lock : String → SetupRequest → Option SetupView → M S Attempts SetupView
  after_lock id request (some view) = pure view
  after_lock id request none = stop_marked id request

  unfoldable pub stop_setup : String → String → String → M S Attempts SetupView
  unfolding after_lock
  stop_setup attempt_id expected_request_sha256 expected_launch_id = do
    require_windows h
    id ← lift (validate_attempt_id (str attempt_id))
    request ← load_request h id
    check_fence h request expected_request_sha256 expected_launch_id
    answer ← with_setup_lock h id (stop_under_lock id request)
    after_lock id request answer
