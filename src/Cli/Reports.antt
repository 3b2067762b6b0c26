-- ===== src/Cli/Reports.antt =====
-- What the exit codes of `setup-owner` in src/blendersessiond/cli.py tell.
use blendersessiond.Base.{
  ◌≡◌, refl, sym, ◌⊎◌, inl, inr, ℕ, String, Bool, true, false, ◌||◌, Option, none, some, List,
  if◌then◌else◌,
}
use blendersessiond.Json.{Fields}
use blendersessiond.Exec.{
  World, Result, ok, err, message, pure, throw, rescue, catch, continue, ◌>>=◌,
}
use blendersessiond.Exec.Ends.{Ended, Ends, Ends-pure, Ends-throw, Ends-if, Ends-then, Ends-catch}
use blendersessiond.Setup.Records.{
  SetupTerminal, SetupView, Cleanup, tree_gone, succeeded, view_dict,
}
use blendersessiond.Setup.Attempt.{SetupHost, Attempts}
use blendersessiond.Setup.Answers.{has_terminal}
use blendersessiond.Setup.LaunchAnswers.{LaunchAnswer, launch_setup-Settles}
use blendersessiond.Setup.Fenced.{IsExpected, StopAnswer, stop_setup-Final}
use blendersessiond.Cli.SetupOwner.{
  SetupCommand, launch, stop, exit_code, is_caught, failure_dict, perform, main,
}
use blendersessiond.Setup.Stop.{stop_setup}

-- `stop_setup` returned this view from the state `w`: its request is the expected one, the attempt is
-- behind its end and the process tree is gone. The view is what is printed.
pub record Stopped {S : Type 0} (h : SetupHost S) (attempt_id sha256 launch_id : String)
    (w : World S Attempts) (out : ℕ × Fields) : Type 0 where
  pub view : SetupView
  pub returned : (stop_setup h attempt_id sha256 launch_id w).0 ≡ ok view
  pub shown : out ≡ (0, view_dict h.codec view)
  pub expected : IsExpected sha256 launch_id view.request
  pub terminal : SetupTerminal
  pub ended : view.terminal ≡ some terminal
  pub gone : terminal.cleanup ≡ tree_gone

-- The launch of the request in the bytes is acknowledged, or it is behind its success; this is
-- printed.
pub record Launched {S : Type 0} (h : SetupHost S) (raw : List ℕ) (printed : Fields) : Type 0 where
  pub view : SetupView
  pub shown : printed ≡ view_dict h.codec view
  pub answer : LaunchAnswer h raw view
  pub fine :
      (view.terminal ≡ none)
      ⊎ ((terminal : SetupTerminal) × (view.terminal ≡ some terminal) × (succeeded terminal ≡ true))

module _ {S : Type 0} (h : SetupHost S) where
  abbrev Reports : (Fields → Type 0) → ℕ × Fields → Type 0
  Reports Good out = (out.0 ≡ 1) ⊎ Good out.1

  reported :
      (Good : Fields → Type 0) (command : SetupCommand)
      → Ends
          (λ view _. Reports Good (exit_code command view, view_dict h.codec view))
          (perform h command)
      → Ends (λ out _. Reports Good out) (main h command)
  unfolding main pure
  reported Good command inside =
      Ends-catch _ _ (Ends-then _ _ inside (λ view w q. q))
        (λ e. Ends-if _ _ _ (Ends-pure _ (λ w. inl refl)) (Ends-throw e))

  module _ (attempt_id sha256 launch_id : String) (w : World S Attempts) where
    abbrev Good : ℕ × Fields → Type 0
    Good out = (out.0 ≡ 1) ⊎ Stopped h attempt_id sha256 launch_id w out

    stop_report :
        (view : SetupView) (b : Bool) (t : Option SetupTerminal)
        → view.ownership_unverified ≡ b
        → view.terminal ≡ t
        → (has_terminal t || b) ≡ true
        → IsExpected sha256 launch_id view.request
        → (stop_setup h attempt_id sha256 launch_id w).0 ≡ ok view
        → Good (exit_code (stop attempt_id sha256 launch_id) view, view_dict h.codec view)
    unfolding exit_code
    stop_report view true t p q f e r = inl (rw p refl)
    stop_report view false none p q f e r = cc
    stop_report view false (some t) p q f e r = go t.cleanup refl
      where
        go :
            (c : Cleanup)
            → t.cleanup ≡ c
            → Good (exit_code (stop attempt_id sha256 launch_id) view, view_dict h.codec view)
        go tree_gone g = inr (record {
          view = view;
          returned = r;
          shown = rw p (rw q (rw g refl));
          expected = e;
          terminal = t;
          ended = q;
          gone = g;
        })
        go Cleanup.cleanup_unverified g = inl (rw p (rw q (rw g refl)))

    -- What `main` makes of the end of `stop_setup`.
    stop_outcome :
        (o : Result SetupView × World S Attempts)
        → o.0 ≡ (stop_setup h attempt_id sha256 launch_id w).0
        → Ended (λ view _. StopAnswer sha256 launch_id view) o
        → Ended
            (λ out _. Good out)
            (rescue
              (continue o λ view.
                pure (exit_code (stop attempt_id sha256 launch_id) view, view_dict h.codec view))
              λ e.
                if is_caught e
                then pure (1, failure_dict "setup-owner stop" (message e))
                else throw e)
    unfolding pure
    stop_outcome (ok view, w') same a =
        stop_report view view.ownership_unverified view.terminal refl refl a.final a.expected
          (sym same)
    stop_outcome (err e, w') same a =
        (Ends-if (is_caught e) _ _ (Ends-pure _ (λ w. inl refl)) (Ends-throw e)).run w'

    -- A `setup-owner stop` that ends without a traceback exits with 1, or it exits with 0 and prints
    -- the view that `stop_setup` returned: its request has the expected SHA-256 and Launch ID, and it
    -- has a terminal record in which the process tree is gone.
    pub main-Stopped :
        Ended
          (λ out _. (out.0 ≡ 1) ⊎ Stopped h attempt_id sha256 launch_id w out)
          (main h (stop attempt_id sha256 launch_id) w)
    unfolding main perform catch ◌>>=◌
    main-Stopped =
        stop_outcome (stop_setup h attempt_id sha256 launch_id w) refl
          ((stop_setup-Final h attempt_id sha256 launch_id).run w)

  module _ (raw : List ℕ) where
    launch_report :
        (view : SetupView) (b : Bool) (t : Option SetupTerminal)
        → view.ownership_unverified ≡ b
        → view.terminal ≡ t
        → LaunchAnswer h raw view
        → Reports (Launched h raw) (exit_code (launch raw) view, view_dict h.codec view)
    unfolding exit_code
    launch_report view true t p q a = inl (rw p refl)
    launch_report view false none p q a =
        inr (record { view = view; shown = refl; answer = a; fine = inl q })
    launch_report view false (some t) p q a = go (succeeded t) refl
      where
        go :
            (b : Bool)
            → succeeded t ≡ b
            → Reports (Launched h raw) (exit_code (launch raw) view, view_dict h.codec view)
        go true g = inr (record { view = view; shown = refl; answer = a; fine = inr (t, q, g) })
        go false g = inl (rw p (rw q (rw g refl)))

    -- A `setup-owner launch` that ends without a traceback exits with 1, or it prints the view of the
    -- request in the bytes, which has a launch receipt and no end yet, or ended in success.
    pub main-Launched : Ends (λ out _. (out.0 ≡ 1) ⊎ Launched h raw out.1) (main h (launch raw))
    unfolding perform
    main-Launched = reported (Launched h raw) (launch raw) (
        blendersessiond.Setup.Answers.Ends-weaken _
          (λ view a. launch_report view view.ownership_unverified view.terminal refl refl a)
          (launch_setup-Settles h raw))
