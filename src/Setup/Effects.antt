-- ===== src/Setup/Effects.antt =====
-- Whatever survives the steps of Setup/Written.antt survives the looks at an attempt and the
-- publications of src/blendersessiond/setup_owner.py.
use blendersessiond.Base.{ℕ, ℤ, String, ◌≡◌, true, Option, none, some}
use blendersessiond.Json.{Fields}
use blendersessiond.Exec.{World, ◌>>=◌}
use blendersessiond.Exec.Keeps.{Keeps, keeps_rules, Keeps-system}
use blendersessiond.Processes.Effects.{process_matches-keeps}
use blendersessiond.Setup.Records.{
  SetupRequest, LaunchReceipt, SetupTerminal, Outcome, TerminalProcess, Cleanup, owned,
}
use blendersessiond.Setup.Semantics.{terminal_semantics_are_valid}
use blendersessiond.Setup.Attempt.{
  SetupHost, Attempts, terminal_json, Opened, opened, invalid_parameter, open_refused,
  with_setup_lock,
}
use blendersessiond.Setup.Written.{Stable, read_optional_record-keeps, write_create_once-keeps}
use blendersessiond.Setup.View.{
  state_of_identity, state_of_handle, exact_process_state, process_state, kill_outcome,
  kill_identity, kill_handle, terminate_exact_process, view_of_receipt, view_of_terminal, read_view,
  load_request, check_fence, write_terminal, publish_or_keep, ended_round, loss_round,
}

-- A terminal with these three has valid semantics, whatever its time and message.
abbrev pub IsSettling : Outcome → TerminalProcess → Cleanup → Type 0
IsSettling outcome process cleanup =
    (request : SetupRequest) (now : ℕ) (m : Option String)
    → terminal_semantics_are_valid (owned request outcome process cleanup now m) ≡ true

module _ {S : Type 0} (h : SetupHost S) where
  module _ (P : World S Attempts → Type 0) (stable : Stable h P) where
    state_of_identity-keeps :
        (pid : ℤ) (expected : String) (filetime : Option ℕ)
        → Keeps P (state_of_identity h pid expected filetime)
    unfolding state_of_identity
    state_of_identity-keeps pid expected none = search keeps_rules
    state_of_identity-keeps pid expected (some filetime) =
        search (keeps_rules, Keeps-system stable.blind)

    state_of_handle-keeps :
        (pid : ℤ) (expected : String) (handle : Opened)
        → Keeps P (state_of_handle h pid expected handle)
    unfolding state_of_handle
    state_of_handle-keeps pid expected invalid_parameter = search keeps_rules
    state_of_handle-keeps pid expected open_refused = search keeps_rules
    state_of_handle-keeps pid expected opened =
        search (keeps_rules, Keeps-system stable.blind, state_of_identity-keeps)

    pub process_state-keeps : (pid : ℤ) (t : String) → Keeps P (process_state h pid t)
    unfolding process_state exact_process_state
    process_state-keeps pid t = search (
      keeps_rules,
      Keeps-system stable.blind,
      state_of_handle-keeps,
      process_matches-keeps P stable.blind,
    )

    kill_outcome-keeps : (trouble : Option String) → Keeps P (kill_outcome h trouble)
    unfolding kill_outcome
    kill_outcome-keeps none = search keeps_rules
    kill_outcome-keeps (some m) = search keeps_rules

    kill_identity-keeps :
        (pid : ℤ) (expected : String) (filetime : Option ℕ)
        → Keeps P (kill_identity h pid expected filetime)
    unfolding kill_identity
    kill_identity-keeps pid expected none = search keeps_rules
    kill_identity-keeps pid expected (some filetime) =
        search (keeps_rules, Keeps-system stable.blind, kill_outcome-keeps)

    kill_handle-keeps :
        (pid : ℤ) (expected : String) (handle : Opened)
        → Keeps P (kill_handle h pid expected handle)
    unfolding kill_handle
    kill_handle-keeps pid expected invalid_parameter = search keeps_rules
    kill_handle-keeps pid expected open_refused = search keeps_rules
    kill_handle-keeps pid expected opened =
        search (keeps_rules, Keeps-system stable.blind, kill_identity-keeps)

    pub terminate_exact_process-keeps :
        (pid : ℤ) (t : String) → Keeps P (terminate_exact_process h pid t)
    unfolding terminate_exact_process
    terminate_exact_process-keeps pid t =
        search (keeps_rules, Keeps-system stable.blind, kill_handle-keeps)

    view_of_receipt-keeps :
        (request : SetupRequest) (payload : Option Fields)
        → Keeps P (view_of_receipt h request payload)
    unfolding view_of_receipt
    view_of_receipt-keeps request none = search keeps_rules
    view_of_receipt-keeps request (some payload) = search keeps_rules

    view_of_terminal-keeps :
        (id : String) (request : SetupRequest) (payload : Option Fields)
        → Keeps P (view_of_terminal h id request payload)
    unfolding view_of_terminal
    view_of_terminal-keeps id request none =
        search (keeps_rules, read_optional_record-keeps h P stable, view_of_receipt-keeps)
    view_of_terminal-keeps id request (some payload) = search keeps_rules

    pub read_view-keeps : (id : String) (request : SetupRequest) → Keeps P (read_view h id request)
    unfolding read_view
    read_view-keeps id request =
        search (keeps_rules, read_optional_record-keeps h P stable, view_of_terminal-keeps)

    pub load_request-keeps : (id : String) → Keeps P (load_request h id)
    unfolding load_request
    load_request-keeps id = search (keeps_rules, read_optional_record-keeps h P stable)

    pub check_fence-keeps :
        (request : SetupRequest) (sha256 launch_id : String)
        → Keeps P (check_fence h request sha256 launch_id)
    unfolding check_fence
    check_fence-keeps request sha256 launch_id = search keeps_rules depth 9

    pub write_terminal-keeps :
        (id : String) (request : SetupRequest) (terminal : SetupTerminal)
        → terminal_semantics_are_valid terminal ≡ true
        → Keeps P (write_terminal h id request terminal)
    unfolding write_terminal
    write_terminal-keeps id request terminal valid = search (
      keeps_rules,
      write_create_once-keeps h P stable id terminal_json _
          (λ bytes encoded. record { terminal = terminal; valid = valid; encoded = encoded }),
    )

    publish_or_keep-keeps :
        (id : String) (request : SetupRequest) (terminal : SetupTerminal) (payload : Option Fields)
        → terminal_semantics_are_valid terminal ≡ true
        → Keeps P (publish_or_keep h id request terminal payload)
    unfolding publish_or_keep
    publish_or_keep-keeps id request terminal none valid =
        write_terminal-keeps id request terminal valid
    publish_or_keep-keeps id request terminal (some payload) valid = search keeps_rules

    pub publish_inside-keeps :
        (id : String) (request : SetupRequest) (terminal : SetupTerminal)
        → terminal_semantics_are_valid terminal ≡ true
        → Keeps P (do
          payload ← blendersessiond.Setup.Attempt.read_optional_record h id terminal_json
          publish_or_keep h id request terminal payload)
    publish_inside-keeps id request terminal valid =
        search (keeps_rules, read_optional_record-keeps h P stable, publish_or_keep-keeps)

    pub ended_round-keeps :
        (id : String) (request : SetupRequest) → Keeps P (ended_round h id request)
    unfolding ended_round
    ended_round-keeps id request = search (keeps_rules, read_view-keeps)

    pub loss_round-keeps : (receipt : LaunchReceipt) → Keeps P (loss_round h receipt)
    unfolding loss_round
    loss_round-keeps receipt = search (keeps_rules, process_state-keeps)
