-- ===== src/Setup/StopEffects.antt =====
-- Whatever survives the steps of Setup/Written.antt survives `status_setup` and `stop_setup` of
-- src/blendersessiond/setup_owner.py.
use blendersessiond.Base.{String, refl, Bool, true, false, Option, none, some}
use blendersessiond.Exec.{World, ◌>>=◌}
use blendersessiond.Exec.Keeps.{Keeps, keeps_rules, Keeps-bind, Keeps-system}
use blendersessiond.Processes.Effects.{poll_for-keeps}
use blendersessiond.Setup.Records.{
  SetupRequest, LaunchReceipt, SetupTerminal, SetupView, owned, not_started,
  stopped_before_ownership, tree_gone,
}
use blendersessiond.Setup.Semantics.{terminal_semantics_are_valid}
use blendersessiond.Setup.Attempt.{SetupHost, Attempts}
use blendersessiond.Setup.Written.{Stable, marker_exists-keeps, touch_create_once-keeps}
use blendersessiond.Setup.Effects.{
  IsSettling, process_state-keeps, terminate_exact_process-keeps, read_view-keeps,
  load_request-keeps, check_fence-keeps, write_terminal-keeps,
}
use blendersessiond.Setup.View.{ProcessState, same, absent, different, unknown}
use blendersessiond.Setup.Operations.{
  Locking, failed-IsSettling, with_setup_lock-keeps, publish_now-keeps, reconcile_after_stop-keeps,
  reconcile_owner_loss-keeps, require_windows-keeps,
}
use blendersessiond.Setup.LaunchEffects.{fail_launch-keeps}
use blendersessiond.Setup.Stop.{
  unowned_status, status_by_keeper, status_by_receipt, status_by_terminal, status_setup,
  kill_keeper, after_kill, stop_by_keeper, keeper_round_by, keeper_round, after_keeper_wait,
  stop_owned, stop_by_receipt, stop_by_view, acknowledged_round, after_acknowledgement_by,
  stop_marked, stop_undispatched, stop_under_lock_by, stop_under_lock, after_lock, stop_setup,
}

pub stopped-IsSettling : IsSettling stopped_before_ownership not_started tree_gone
unfolding owned terminal_semantics_are_valid
stopped-IsSettling request now m = refl

module _ {S : Type 0} (h : SetupHost S) (P : World S Attempts → Type 0)
    (Q : String → World S Attempts → Type 0) (locking : Locking h P Q) where
  abbrev outer : Stable h P
  outer = locking.outside

  abbrev inner : (id : String) → Stable h (Q id)
  inner id = locking.inside id

  unowned_status-keeps :
      (id : String) (request : SetupRequest) (view : SetupView) (dispatched : Bool)
      → Keeps P (unowned_status h id request view dispatched)
  unfolding unowned_status
  unowned_status-keeps id request view dispatched =
      search (keeps_rules, Keeps-system outer.blind, fail_launch-keeps h P Q locking)

  status_by_keeper-keeps :
      (id : String) (request : SetupRequest) (view : SetupView) (receipt : LaunchReceipt)
      (keeper : ProcessState)
      → Keeps P (status_by_keeper h id request view receipt keeper)
  unfolding status_by_keeper
  status_by_keeper-keeps id request view receipt same = search keeps_rules
  status_by_keeper-keeps id request view receipt unknown = search keeps_rules
  status_by_keeper-keeps id request view receipt absent =
      search (reconcile_owner_loss-keeps h P Q locking)
  status_by_keeper-keeps id request view receipt different =
      search (reconcile_owner_loss-keeps h P Q locking)

  status_by_receipt-keeps :
      (id : String) (request : SetupRequest) (view : SetupView) (receipt : Option LaunchReceipt)
      → Keeps P (status_by_receipt h id request view receipt)
  unfolding status_by_receipt
  status_by_receipt-keeps id request view none =
      search (keeps_rules, marker_exists-keeps h P outer, unowned_status-keeps)
  status_by_receipt-keeps id request view (some receipt) =
      search (keeps_rules, process_state-keeps h P outer, status_by_keeper-keeps)

  status_by_terminal-keeps :
      (id : String) (request : SetupRequest) (view : SetupView) (terminal : Option SetupTerminal)
      → Keeps P (status_by_terminal h id request view terminal)
  unfolding status_by_terminal
  status_by_terminal-keeps id request view (some terminal) = search keeps_rules
  status_by_terminal-keeps id request view none = search status_by_receipt-keeps

  pub status_setup-keeps :
      (attempt_id sha256 launch_id : String) → Keeps P (status_setup h attempt_id sha256 launch_id)
  unfolding status_setup
  status_setup-keeps attempt_id sha256 launch_id =
      Keeps-bind _ _ (require_windows-keeps h P Q locking) λ _.
        search
          (
            keeps_rules,
            load_request-keeps h P outer,
            check_fence-keeps h P outer,
            read_view-keeps h P outer,
            status_by_terminal-keeps,
          )
          depth 9

  kill_keeper-keeps :
      (request : SetupRequest) (receipt : LaunchReceipt) → Keeps P (kill_keeper h request receipt)
  unfolding kill_keeper
  kill_keeper-keeps request receipt = search (keeps_rules, terminate_exact_process-keeps h P outer)

  after_kill-keeps :
      (id : String) (request : SetupRequest) (receipt : LaunchReceipt) (failed : Option SetupView)
      → Keeps P (after_kill h id request receipt failed)
  unfolding after_kill
  after_kill-keeps id request receipt (some view) = search keeps_rules
  after_kill-keeps id request receipt none = search (reconcile_after_stop-keeps h P Q locking)

  stop_by_keeper-keeps :
      (id : String) (request : SetupRequest) (receipt : LaunchReceipt) (keeper : ProcessState)
      → Keeps P (stop_by_keeper h id request receipt keeper)
  unfolding stop_by_keeper
  stop_by_keeper-keeps id request receipt keeper =
      search (keeps_rules, kill_keeper-keeps, after_kill-keeps)

  keeper_round_by-keeps :
      (request : SetupRequest) (receipt : LaunchReceipt) (view : SetupView)
      (terminal : Option SetupTerminal)
      → Keeps P (keeper_round_by h request receipt view terminal)
  unfolding keeper_round_by
  keeper_round_by-keeps request receipt view (some terminal) = search keeps_rules
  keeper_round_by-keeps request receipt view none =
      search (keeps_rules, process_state-keeps h P outer)

  keeper_round-keeps :
      (id : String) (request : SetupRequest) (receipt : LaunchReceipt)
      → Keeps P (keeper_round h id request receipt)
  unfolding keeper_round
  keeper_round-keeps id request receipt =
      search (keeps_rules, read_view-keeps h P outer, keeper_round_by-keeps)

  after_keeper_wait-keeps :
      (id : String) (request : SetupRequest) (receipt : LaunchReceipt)
      (ended : Option (Option SetupView))
      → Keeps P (after_keeper_wait h id request receipt ended)
  unfolding after_keeper_wait
  after_keeper_wait-keeps id request receipt (some (some view)) = search keeps_rules
  after_keeper_wait-keeps id request receipt (some none) =
      search (keeps_rules, process_state-keeps h P outer, stop_by_keeper-keeps)
  after_keeper_wait-keeps id request receipt none =
      search (keeps_rules, process_state-keeps h P outer, stop_by_keeper-keeps)

  stop_by_receipt-keeps :
      (id : String) (request : SetupRequest) (receipt : Option LaunchReceipt)
      → Keeps P (stop_by_receipt h id request receipt)
  unfolding stop_by_receipt stop_owned
  stop_by_receipt-keeps id request (some receipt) =
      search
        (keeps_rules, poll_for-keeps P outer.blind, keeper_round-keeps, after_keeper_wait-keeps)
  stop_by_receipt-keeps id request none =
      search (publish_now-keeps h P Q locking, failed-IsSettling)

  stop_by_view-keeps :
      (id : String) (request : SetupRequest) (view : SetupView) (terminal : Option SetupTerminal)
      → Keeps P (stop_by_view h id request view terminal)
  unfolding stop_by_view
  stop_by_view-keeps id request view (some terminal) = search keeps_rules
  stop_by_view-keeps id request view none = search stop_by_receipt-keeps

  looked_again-keeps :
      (id : String) (request : SetupRequest)
      → Keeps P (do
        view ← blendersessiond.Setup.View.read_view h id request
        stop_by_view h id request view view.terminal)
  looked_again-keeps id request =
      search (keeps_rules, read_view-keeps h P outer, stop_by_view-keeps)

  after_acknowledgement-keeps :
      (id : String) (request : SetupRequest) (ended : Option (Option SetupView))
      → Keeps P (after_acknowledgement_by h id request ended)
  unfolding after_acknowledgement_by
  after_acknowledgement-keeps id request (some (some view)) = search keeps_rules
  after_acknowledgement-keeps id request (some none) = looked_again-keeps id request
  after_acknowledgement-keeps id request none = looked_again-keeps id request

  stop_marked-keeps : (id : String) (request : SetupRequest) → Keeps P (stop_marked h id request)
  unfolding stop_marked acknowledged_round
  stop_marked-keeps id request =
      search
        (
          keeps_rules,
          poll_for-keeps P outer.blind,
          read_view-keeps h P outer,
          after_acknowledgement-keeps,
        )
        depth 9

  stop_undispatched-keeps :
      (id : String) (request : SetupRequest) (dispatched : Bool)
      → Keeps (Q id) (stop_undispatched h id request dispatched)
  unfolding stop_undispatched
  stop_undispatched-keeps id request false =
      search
        (
          keeps_rules,
          Keeps-system (inner id).blind,
          write_terminal-keeps h (Q id) (inner id),
          stopped-IsSettling,
        )
        depth 9
  stop_undispatched-keeps id request true =
      search (keeps_rules, touch_create_once-keeps h (Q id) (inner id))

  stop_under_lock_by-keeps :
      (id : String) (request : SetupRequest) (view : SetupView) (terminal : Option SetupTerminal)
      (receipt : Option LaunchReceipt)
      → Keeps (Q id) (stop_under_lock_by h id request view terminal receipt)
  unfolding stop_under_lock_by
  stop_under_lock_by-keeps id request view (some terminal) receipt = search keeps_rules
  stop_under_lock_by-keeps id request view none (some receipt) =
      search (keeps_rules, touch_create_once-keeps h (Q id) (inner id))
  stop_under_lock_by-keeps id request view none none =
      search (keeps_rules, marker_exists-keeps h (Q id) (inner id), stop_undispatched-keeps)

  stop_under_lock-keeps :
      (id : String) (request : SetupRequest) → Keeps (Q id) (stop_under_lock h id request)
  unfolding stop_under_lock
  stop_under_lock-keeps id request =
      search (keeps_rules, read_view-keeps h (Q id) (inner id), stop_under_lock_by-keeps)

  after_lock-keeps :
      (id : String) (request : SetupRequest) (answer : Option SetupView)
      → Keeps P (after_lock h id request answer)
  unfolding after_lock
  after_lock-keeps id request (some view) = search keeps_rules
  after_lock-keeps id request none = search stop_marked-keeps

  pub stop_setup-keeps :
      (attempt_id sha256 launch_id : String) → Keeps P (stop_setup h attempt_id sha256 launch_id)
  unfolding stop_setup
  stop_setup-keeps attempt_id sha256 launch_id =
      Keeps-bind _ _ (require_windows-keeps h P Q locking) λ _.
        search
          (
            keeps_rules,
            load_request-keeps h P outer,
            check_fence-keeps h P outer,
            with_setup_lock-keeps h P Q locking,
            stop_under_lock-keeps,
            after_lock-keeps,
          )
          depth 9
