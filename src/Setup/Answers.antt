-- ===== src/Setup/Answers.antt =====
-- The views that the looks and the publications of src/blendersessiond/setup_owner.py give are of
-- the request that they are asked for.
use blendersessiond.Base.{◌≡◌, refl, String, Bool, true, false, ◌||◌, Option, none, some}
use blendersessiond.Json.{Fields}
use blendersessiond.Exec.{World, Result, M, Error, os_error, timeout_error, setup_lock, ◌>>=◌, ◌>>◌}
use blendersessiond.Exec.Ends.{
  Ends, Ended, Ends-pure, Ends-throw, Ends-if, Ends-bind, Ends-then, Ends-catch, Ends-file_lock,
}
use blendersessiond.Processes.PollEnds.{WhenSome, poll_for-Ends}
use blendersessiond.Setup.Records.{
  SetupRequest, LaunchReceipt, SetupTerminal, SetupView, Outcome, TerminalProcess, Cleanup,
  accepted_view, owned_view, terminal_view, unverified_view,
}
use blendersessiond.Setup.Attempt.{
  SetupHost, Attempts, as_setup_error, guarded_by, guarded, with_setup_lock,
}
use blendersessiond.Setup.View.{
  view_of_receipt, view_of_terminal, read_view, write_terminal, publish_or_keep, publish_terminal,
  publish_now, ended_view, ended_round, after_stop, reconcile_after_stop, lost_root, after_loss,
  reconcile_owner_loss,
}

abbrev pub has_terminal : Option SetupTerminal → Bool
has_terminal none = false
has_terminal (some t) = true

-- The view is of this request.
pub record IsFor (request : SetupRequest) (view : SetupView) : Type 0 where
  pub same : view.request ≡ request

-- It says how the attempt ended, or that its ownership could not be verified.
pub record IsFinal (request : SetupRequest) (view : SetupView) : Type 0 where
  pub same : view.request ≡ request
  pub final : (has_terminal view.terminal || view.ownership_unverified) ≡ true

pub terminal_view-IsFinal :
    (request : SetupRequest) (t : SetupTerminal) → IsFinal request (terminal_view request t)
unfolding terminal_view
terminal_view-IsFinal request t = record { same = refl; final = refl }

pub unverified_view-IsFinal :
    (request : SetupRequest) (r : LaunchReceipt) → IsFinal request (unverified_view request r)
unfolding unverified_view
unverified_view-IsFinal request r = record { same = refl; final = refl }

pub IsFor-IsFinal :
    (request : SetupRequest) (view : SetupView) (t : SetupTerminal)
    → view.terminal ≡ some t
    → IsFor request view
    → IsFinal request view
IsFor-IsFinal request view t found p = record { same = p.same; final = rw found refl }

pub IsFinal-IsFor :
    (request : SetupRequest) (view : SetupView) → IsFinal request view → IsFor request view
IsFinal-IsFor request view p = record { same = p.same }

module _ {S D A : Type 0} {P Q : A → Type 0} where
  pub Ends-weaken :
      (m : M S D A) → ((a : A) → P a → Q a) → Ends (λ a _. P a) m → Ends (λ a _. Q a) m
  Ends-weaken m f h = record { run = λ w. go (m w) (h.run w) }
    where
      go : (o : Result A × World S D) → Ended (λ a _. P a) o → Ended (λ a _. Q a) o
      go (blendersessiond.Exec.ok a, w) q = f a q
      go (blendersessiond.Exec.err e, w) q = tt

module _ {S : Type 0} (h : SetupHost S) where
  module _ {A : Type 0} (Q : A → Type 0) (body : M S Attempts A)
      (inside : Ends (λ a _. Q a) body) where
    as_setup_error-Ends : (e : Error) → Ends (λ a _. Q a) (as_setup_error h e)
    unfolding as_setup_error
    as_setup_error-Ends (os_error m) = Ends-throw _
    as_setup_error-Ends (timeout_error m) = Ends-throw _
    as_setup_error-Ends _ = Ends-throw _

    guarded_by-Ends : (refused : Option String) → Ends (λ a _. Q a) (guarded_by h refused body)
    unfolding guarded_by
    guarded_by-Ends none = Ends-catch _ _ inside as_setup_error-Ends
    guarded_by-Ends (some m) = Ends-throw _

    guarded-Ends : Ends (λ a _. Q a) (guarded h body)
    unfolding guarded
    guarded-Ends = Ends-if _ _ _ (Ends-bind _ _ guarded_by-Ends) inside

  pub with_setup_lock-Ends :
      {A : Type 0} (Q : A → Type 0) (id : String) (body : M S Attempts A)
      → Ends (λ a _. Q a) body
      → Ends (λ a _. Q a) (with_setup_lock h id body)
  unfolding with_setup_lock
  with_setup_lock-Ends Q id body inside =
      guarded-Ends Q _
        (Ends-bind _ _ (λ _. Ends-file_lock (setup_lock id) body (λ a w held q. q) inside))

  module _ (id : String) (request : SetupRequest) where
    abbrev For : M S Attempts SetupView → Type 0
    For m = Ends (λ view _. IsFor request view) m

    abbrev Final : M S Attempts SetupView → Type 0
    Final m = Ends (λ view _. IsFinal request view) m

    view_of_receipt-Ends : (payload : Option Fields) → For (view_of_receipt h request payload)
    unfolding view_of_receipt accepted_view owned_view
    view_of_receipt-Ends none = Ends-pure _ (λ w. record { same = refl })
    view_of_receipt-Ends (some payload) =
        Ends-bind _ _ (λ receipt. Ends-pure _ (λ w. record { same = refl }))

    view_of_terminal-Ends : (payload : Option Fields) → For (view_of_terminal h id request payload)
    unfolding view_of_terminal terminal_view
    view_of_terminal-Ends none = Ends-bind _ _ view_of_receipt-Ends
    view_of_terminal-Ends (some payload) =
        Ends-bind _ _ (λ terminal. Ends-pure _ (λ w. record { same = refl }))

    pub read_view-Ends : For (read_view h id request)
    unfolding read_view
    read_view-Ends = Ends-bind _ _ view_of_terminal-Ends

    pub write_terminal-Ends :
        (terminal : SetupTerminal) → Final (write_terminal h id request terminal)
    unfolding write_terminal
    write_terminal-Ends terminal =
        Ends-bind _ _ (λ _. Ends-pure _ (λ w. terminal_view-IsFinal request terminal))

    publish_or_keep-Ends :
        (terminal : SetupTerminal) (payload : Option Fields)
        → Final (publish_or_keep h id request terminal payload)
    unfolding publish_or_keep
    publish_or_keep-Ends terminal none = write_terminal-Ends terminal
    publish_or_keep-Ends terminal (some payload) =
        Ends-bind _ _ (λ existing. Ends-pure _ (λ w. terminal_view-IsFinal request existing))

    publish_terminal-Ends :
        (terminal : SetupTerminal) → Final (publish_terminal h id request terminal)
    unfolding publish_terminal
    publish_terminal-Ends terminal =
        with_setup_lock-Ends _ id _ (Ends-bind _ _ (publish_or_keep-Ends terminal))

    pub publish_now-Ends :
        (o : Outcome) (p : TerminalProcess) (c : Cleanup) (m : Option String)
        → Final (publish_now h id request o p c m)
    unfolding publish_now
    publish_now-Ends o p c m = Ends-bind _ _ (λ now. publish_terminal-Ends _)

    ended_view-IsFinal :
        (view : SetupView) (t : Option SetupTerminal)
        → view.terminal ≡ t
        → IsFor request view
        → WhenSome (IsFinal request) (ended_view view t)
    ended_view-IsFinal view none found p = tt
    ended_view-IsFinal view (some t) found p = IsFor-IsFinal request view t found p

    ended_round-Ends : Ends (λ o _. WhenSome (IsFinal request) o) (ended_round h id request)
    unfolding ended_round blendersessiond.Exec.pure
    ended_round-Ends =
        Ends-then _ _ read_view-Ends (λ view w p. ended_view-IsFinal view view.terminal refl p)

    after_stop-Ends :
        (receipt : LaunchReceipt) (ended : Option SetupView)
        → WhenSome (IsFinal request) ended
        → Final (after_stop h id request receipt ended)
    unfolding after_stop
    after_stop-Ends receipt (some view) q = Ends-pure view (λ w. q)
    after_stop-Ends receipt none q = Ends-bind _ _ λ keeper. Ends-bind _ _ λ root.
        Ends-if _ _ _ (Ends-pure _ (λ w. unverified_view-IsFinal request receipt))
          (publish_now-Ends _ _ _ _)

    pub reconcile_after_stop-Ends :
        (receipt : LaunchReceipt) → Final (reconcile_after_stop h id request receipt)
    unfolding reconcile_after_stop
    reconcile_after_stop-Ends receipt =
        Ends-then _ _ (poll_for-Ends h.kernel 50 (IsFinal request) _ ended_round-Ends 10000)
          (λ ended w q. (after_stop-Ends receipt ended q).run w)

    lost_root-Ends : (receipt : LaunchReceipt) → For (lost_root h id request receipt)
    unfolding lost_root
    lost_root-Ends receipt = Ends-weaken _ (IsFinal-IsFor request) (
        Ends-bind _ _ λ root.
          Ends-if _ _ _ (Ends-pure _ (λ w. unverified_view-IsFinal request receipt))
            (publish_now-Ends _ _ _ _))

    owned-For :
        (receipt : LaunchReceipt) → For (blendersessiond.Exec.pure (owned_view request receipt))
    unfolding owned_view
    owned-For receipt = Ends-pure _ (λ w. record { same = refl })

    after_loss-Ends :
        (receipt : LaunchReceipt) (found : Option Bool)
        → For (after_loss h id request receipt found)
    unfolding after_loss unverified_view
    after_loss-Ends receipt (some true) = owned-For receipt
    after_loss-Ends receipt (some false) = Ends-bind _ _ λ keeper.
        Ends-if _ _ _ (owned-For receipt)
          (Ends-if _ _ _ (Ends-pure _ (λ w. record { same = refl })) (lost_root-Ends receipt))
    after_loss-Ends receipt none = Ends-bind _ _ λ keeper.
        Ends-if _ _ _ (owned-For receipt)
          (Ends-if _ _ _ (Ends-pure _ (λ w. record { same = refl })) (lost_root-Ends receipt))

    pub reconcile_owner_loss-Ends :
        (receipt : LaunchReceipt) → For (reconcile_owner_loss h id request receipt)
    unfolding reconcile_owner_loss
    reconcile_owner_loss-Ends receipt = Ends-bind _ _ (after_loss-Ends receipt)
