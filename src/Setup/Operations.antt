-- ===== src/Setup/Operations.antt =====
-- Whatever survives the steps of Setup/Written.antt survives `launch_setup`, `status_setup` and
-- `stop_setup` of src/blendersessiond/setup_owner.py.
use blendersessiond.Base.{ℕ, String, ◌≡◌, refl, Bool, true, false, Option, none, some, List}
use blendersessiond.Json.{Fields}
use blendersessiond.Exec.{World, M, setup_lock, file_lock}
use blendersessiond.Exec.Keeps.{Keeps, keeps_rules, Keeps-bind, Keeps-system}
use blendersessiond.Processes.Effects.{poll_for-keeps}
use blendersessiond.Setup.Records.{
  SetupRequest, LaunchReceipt, SetupTerminal, SetupView, Outcome, TerminalProcess, Cleanup, owned,
  launch_failed, not_started,
}
use blendersessiond.Setup.Semantics.{terminal_semantics_are_valid}
use blendersessiond.Setup.Attempt.{SetupHost, Attempts, request_json, with_setup_lock}
use blendersessiond.Setup.Written.{
  Stable, interleave-keeps, guarded-keeps, read_optional_record-keeps, write_create_once-keeps,
}
use blendersessiond.Setup.Effects.{
  IsSettling, process_state-keeps, publish_inside-keeps, ended_round-keeps, loss_round-keeps,
}
use blendersessiond.Setup.View.{
  publish_terminal, publish_now, after_stop, reconcile_after_stop, lost_root, after_loss,
  reconcile_owner_loss,
}
use blendersessiond.Setup.Launch.{
  require_windows, accept_new, accept_existing, accept_launch_request,
}

cancelled-IsSettling :
    IsSettling Outcome.cleanup_unverified TerminalProcess.cancelled Cleanup.cleanup_unverified
unfolding owned terminal_semantics_are_valid
cancelled-IsSettling request now m = refl

lost-IsSettling :
    IsSettling Outcome.cleanup_unverified TerminalProcess.owner_lost Cleanup.cleanup_unverified
unfolding owned terminal_semantics_are_valid
lost-IsSettling request now m = refl

pub failed-IsSettling : IsSettling launch_failed not_started Cleanup.cleanup_unverified
unfolding owned terminal_semantics_are_valid
failed-IsSettling request now m = refl

-- `P` survives each step, and within the lock of an attempt `Q` does.
pub record Locking {S : Type 0} (h : SetupHost S) (P : World S Attempts → Type 0)
    (Q : String → World S Attempts → Type 0) : Type 1 where
  pub outside : Stable h P
  pub inside : (id : String) → Stable h (Q id)
  pub locked :
      {A : Type 0} (id : String) (body : M S Attempts A)
      → Keeps (Q id) body
      → Keeps P (file_lock (setup_lock id) body)

module _ {S : Type 0} (h : SetupHost S) (P : World S Attempts → Type 0)
    (Q : String → World S Attempts → Type 0) (locking : Locking h P Q) where
  abbrev outer : Stable h P
  outer = locking.outside

  abbrev inner : (id : String) → Stable h (Q id)
  inner id = locking.inside id

  abbrev waits :
      {A : Type 0} (pause : ℕ) (body : M S Attempts (Option A)) (kept : Keeps P body) (wait : ℕ)
      → Keeps P (blendersessiond.Processes.Poll.poll_for h.kernel pause wait body)
  waits pause body kept wait = poll_for-keeps P outer.blind h.kernel pause body kept wait

  pub with_setup_lock-keeps :
      {A : Type 0} (id : String) (body : M S Attempts A)
      → Keeps (Q id) body
      → Keeps P (with_setup_lock h id body)
  unfolding with_setup_lock
  with_setup_lock-keeps id body kept =
      guarded-keeps h P outer _
        (Keeps-bind _ _ (interleave-keeps h P outer) (λ _. locking.locked id body kept))

  pub publish_terminal-keeps :
      (id : String) (request : SetupRequest) (terminal : SetupTerminal)
      → terminal_semantics_are_valid terminal ≡ true
      → Keeps P (publish_terminal h id request terminal)
  unfolding publish_terminal
  publish_terminal-keeps id request terminal valid =
      with_setup_lock-keeps id _
        (publish_inside-keeps h (Q id) (inner id) id request terminal valid)

  pub publish_now-keeps :
      (id : String) (request : SetupRequest) (o : Outcome) (p : TerminalProcess) (c : Cleanup)
      (m : Option String)
      → IsSettling o p c
      → Keeps P (publish_now h id request o p c m)
  unfolding publish_now
  publish_now-keeps id request o p c m settling =
      Keeps-bind _ _ (Keeps-system outer.blind _)
        λ now. publish_terminal-keeps id request _ (settling request now m)

  after_stop-keeps :
      (id : String) (request : SetupRequest) (receipt : LaunchReceipt) (ended : Option SetupView)
      → Keeps P (after_stop h id request receipt ended)
  unfolding after_stop
  after_stop-keeps id request receipt (some view) = search keeps_rules
  after_stop-keeps id request receipt none =
      search (keeps_rules, process_state-keeps h P outer, publish_now-keeps, cancelled-IsSettling)

  pub reconcile_after_stop-keeps :
      (id : String) (request : SetupRequest) (receipt : LaunchReceipt)
      → Keeps P (reconcile_after_stop h id request receipt)
  unfolding reconcile_after_stop
  reconcile_after_stop-keeps id request receipt =
      search (keeps_rules, waits, ended_round-keeps h P outer, after_stop-keeps)

  lost_root-keeps :
      (id : String) (request : SetupRequest) (receipt : LaunchReceipt)
      → Keeps P (lost_root h id request receipt)
  unfolding lost_root
  lost_root-keeps id request receipt =
      search (keeps_rules, process_state-keeps h P outer, publish_now-keeps, lost-IsSettling)

  after_loss-keeps :
      (id : String) (request : SetupRequest) (receipt : LaunchReceipt) (found : Option Bool)
      → Keeps P (after_loss h id request receipt found)
  unfolding after_loss
  after_loss-keeps id request receipt (some true) = search keeps_rules
  after_loss-keeps id request receipt (some false) =
      search (keeps_rules, process_state-keeps h P outer, lost_root-keeps)
  after_loss-keeps id request receipt none =
      search (keeps_rules, process_state-keeps h P outer, lost_root-keeps)

  pub reconcile_owner_loss-keeps :
      (id : String) (request : SetupRequest) (receipt : LaunchReceipt)
      → Keeps P (reconcile_owner_loss h id request receipt)
  unfolding reconcile_owner_loss
  reconcile_owner_loss-keeps id request receipt =
      search (keeps_rules, waits, loss_round-keeps h P outer, after_loss-keeps)

  pub require_windows-keeps : Keeps P (require_windows h)
  unfolding require_windows
  require_windows-keeps = search keeps_rules

  accept_new-keeps :
      (id : String) (request : SetupRequest) (now : ℕ) → Keeps (Q id) (accept_new h id request now)
  unfolding accept_new
  accept_new-keeps id request now = search (
    keeps_rules,
    write_create_once-keeps h (Q id) (inner id) id request_json _ (λ bytes encoded. tt),
  )

  accept_existing-keeps :
      (id : String) (request : SetupRequest) (now : ℕ) (existing : Option Fields)
      → Keeps (Q id) (accept_existing h id request now existing)
  unfolding accept_existing
  accept_existing-keeps id request now none = accept_new-keeps id request now
  accept_existing-keeps id request now (some existing) = search keeps_rules

  pub accept_launch_request-keeps : (raw : List ℕ) → Keeps P (accept_launch_request h raw)
  unfolding accept_launch_request
  accept_launch_request-keeps raw =
      search
        (
          keeps_rules,
          Keeps-system outer.blind,
          guarded-keeps h P outer,
          with_setup_lock-keeps,
          read_optional_record-keeps h _ (inner _),
          accept_existing-keeps,
        )
        depth 12
