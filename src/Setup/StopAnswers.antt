-- ===== src/Setup/StopAnswers.antt =====
-- What `stop_setup` of src/blendersessiond/setup_owner.py answers.
use blendersessiond.Base.{◌≡◌, refl, String, Bool, true, false, Option, none, some, if◌then◌else◌}
use blendersessiond.Exec.{M, pure, ◌>>=◌}
use blendersessiond.Exec.Ends.{
  Ends, Ends-pure, Ends-throw, Ends-if, Ends-bind, Ends-then, Ends-catch,
}
use blendersessiond.Processes.PollEnds.{WhenSome, poll_for-Ends}
use blendersessiond.Setup.Records.{SetupRequest, LaunchReceipt, SetupTerminal, SetupView}
use blendersessiond.Setup.Attempt.{SetupHost, Attempts, with_setup_lock}
use blendersessiond.Setup.View.{ProcessState, is_same, read_view}
use blendersessiond.Setup.Answers.{
  IsFor, IsFinal, IsFor-IsFinal, unverified_view-IsFinal, with_setup_lock-Ends, read_view-Ends,
  write_terminal-Ends, publish_now-Ends, reconcile_after_stop-Ends,
}
use blendersessiond.Setup.Stop.{
  kill_keeper, after_kill, stop_by_keeper, keeper_round_by, keeper_round, after_keeper_wait,
  stop_owned, stop_by_receipt, stop_by_view, acknowledged_round, after_acknowledgement_by, returned,
  loop_result, stop_marked, stop_undispatched, stop_under_lock_by, stop_under_lock, after_lock,
}

-- A loop that ends with an answer.
abbrev WhenReturned : (SetupView → Type 0) → Option (Option SetupView) → Type 0
WhenReturned Q none = Unit
WhenReturned Q (some o) = WhenSome Q o

module _ {S : Type 0} (h : SetupHost S) (id : String) (request : SetupRequest) where
  abbrev Final : M S Attempts SetupView → Type 0
  Final m = Ends (λ view _. IsFinal request view) m

  abbrev MayEnd : M S Attempts (Option SetupView) → Type 0
  MayEnd m = Ends (λ o _. WhenSome (IsFinal request) o) m

  unverified-Final :
      (receipt : LaunchReceipt)
      → MayEnd (pure (some (blendersessiond.Setup.Records.unverified_view request receipt)))
  unverified-Final receipt = Ends-pure _ (λ w. unverified_view-IsFinal request receipt)

  kill_keeper-Ends : (receipt : LaunchReceipt) → MayEnd (kill_keeper h request receipt)
  unfolding kill_keeper
  kill_keeper-Ends receipt =
      Ends-catch _ _ (Ends-bind _ _ (λ _. Ends-pure none (λ w. tt)))
        (λ e. Ends-if _ _ _ (unverified-Final receipt) (Ends-throw e))

  after_kill-Ends :
      (receipt : LaunchReceipt) (failed : Option SetupView)
      → WhenSome (IsFinal request) failed
      → Final (after_kill h id request receipt failed)
  unfolding after_kill
  after_kill-Ends receipt (some view) q = Ends-pure view (λ w. q)
  after_kill-Ends receipt none q = reconcile_after_stop-Ends h id request receipt

  stop_by_keeper-Ends :
      (receipt : LaunchReceipt) (keeper : ProcessState)
      → Final (stop_by_keeper h id request receipt keeper)
  unfolding stop_by_keeper
  stop_by_keeper-Ends receipt keeper =
      Ends-then _ _ (Ends-if _ _ _ (kill_keeper-Ends receipt) (Ends-pure none (λ w. tt)))
        (λ failed w q. (after_kill-Ends receipt failed q).run w)

  keeper_round_by-Ends :
      (receipt : LaunchReceipt) (view : SetupView) (t : Option SetupTerminal)
      → view.terminal ≡ t
      → IsFor request view
      → Ends
          (λ o _. WhenSome (WhenSome (IsFinal request)) o)
          (keeper_round_by h request receipt view t)
  unfolding keeper_round_by
  keeper_round_by-Ends receipt view (some t) found p =
      Ends-pure _ (λ w. IsFor-IsFinal request view t found p)
  keeper_round_by-Ends receipt view none found p =
      Ends-bind _ _ λ keeper. Ends-pure _ (λ w. none_or (is_same keeper))
    where
      none_or : (b : Bool) → WhenSome (WhenSome (IsFinal request)) (if b then none else some none)
      none_or true = tt
      none_or false = tt

  keeper_round-Ends :
      (receipt : LaunchReceipt)
      → Ends (λ o _. WhenSome (WhenSome (IsFinal request)) o) (keeper_round h id request receipt)
  unfolding keeper_round
  keeper_round-Ends receipt =
      Ends-then _ _ (read_view-Ends h id request)
        (λ view w p. (keeper_round_by-Ends receipt view view.terminal refl p).run w)

  after_keeper_wait-Ends :
      (receipt : LaunchReceipt) (ended : Option (Option SetupView))
      → WhenReturned (IsFinal request) ended
      → Final (after_keeper_wait h id request receipt ended)
  unfolding after_keeper_wait
  after_keeper_wait-Ends receipt (some (some view)) q = Ends-pure view (λ w. q)
  after_keeper_wait-Ends receipt (some none) q = Ends-bind _ _ (stop_by_keeper-Ends receipt)
  after_keeper_wait-Ends receipt none q = Ends-bind _ _ (stop_by_keeper-Ends receipt)

  both_ways :
      (o : Option (Option SetupView))
      → WhenSome (WhenSome (IsFinal request)) o
      → WhenReturned (IsFinal request) o
  both_ways none q = tt
  both_ways (some o) q = q

  stop_by_receipt-Ends :
      (receipt : Option LaunchReceipt) → Final (stop_by_receipt h id request receipt)
  unfolding stop_by_receipt stop_owned
  stop_by_receipt-Ends none = publish_now-Ends h id request _ _ _ _
  stop_by_receipt-Ends (some receipt) =
      Ends-then _ _
        (poll_for-Ends h.kernel 50 (WhenSome (IsFinal request)) _ (keeper_round-Ends receipt) 10000)
        (λ ended w q. (after_keeper_wait-Ends receipt ended (both_ways ended q)).run w)

  stop_by_view-Ends :
      (view : SetupView) (t : Option SetupTerminal)
      → view.terminal ≡ t
      → IsFor request view
      → Final (stop_by_view h id request view t)
  unfolding stop_by_view
  stop_by_view-Ends view (some t) found p =
      Ends-pure view (λ w. IsFor-IsFinal request view t found p)
  stop_by_view-Ends view none found p = stop_by_receipt-Ends view.receipt

  looked_again-Ends :
      Final (do view ← read_view h id request; stop_by_view h id request view view.terminal)
  looked_again-Ends =
      Ends-then _ _ (read_view-Ends h id request)
        (λ view w p. (stop_by_view-Ends view view.terminal refl p).run w)

  after_acknowledgement-Ends :
      (ended : Option (Option SetupView))
      → WhenReturned (IsFinal request) ended
      → Final (after_acknowledgement_by h id request ended)
  unfolding after_acknowledgement_by
  after_acknowledgement-Ends (some (some view)) q = Ends-pure view (λ w. q)
  after_acknowledgement-Ends (some none) q = looked_again-Ends
  after_acknowledgement-Ends none q = looked_again-Ends

  acknowledged_round-Ends :
      Ends (λ o _. WhenSome (IsFor request) o) (acknowledged_round h id request)
  unfolding acknowledged_round pure
  acknowledged_round-Ends =
      Ends-then _ _ (read_view-Ends h id request)
        (λ view w p. when view (blendersessiond.Setup.Launch.is_settled view) p)
    where
      when :
          (view : SetupView) (b : Bool)
          → IsFor request view
          → WhenSome (IsFor request) (if b then some view else none)
      when view true p = p
      when view false p = tt

  returned-Final :
      (view : SetupView) (t : Option SetupTerminal)
      → view.terminal ≡ t
      → IsFor request view
      → WhenSome (IsFinal request) (returned view t)
  returned-Final view none found p = tt
  returned-Final view (some t) found p = IsFor-IsFinal request view t found p

  loop_result-Returned :
      (o : Option SetupView)
      → WhenSome (IsFor request) o
      → WhenReturned (IsFinal request) (loop_result o)
  loop_result-Returned none p = tt
  loop_result-Returned (some view) p = returned-Final view view.terminal refl p

  stop_marked-Ends : Final (stop_marked h id request)
  unfolding stop_marked
  stop_marked-Ends =
      Ends-then _ _ (poll_for-Ends h.kernel 20 (IsFor request) _ acknowledged_round-Ends 10000)
        (λ settled w p.
          (after_acknowledgement-Ends (loop_result settled) (loop_result-Returned settled p)).run w)

  stop_undispatched-Ends : (dispatched : Bool) → MayEnd (stop_undispatched h id request dispatched)
  unfolding stop_undispatched pure
  stop_undispatched-Ends false =
      Ends-bind _ _ λ now. Ends-then _ _ (write_terminal-Ends h id request _) (λ view w q. q)
  stop_undispatched-Ends true = Ends-bind _ _ (λ _. Ends-pure none (λ w. tt))

  stop_under_lock_by-Ends :
      (view : SetupView) (t : Option SetupTerminal) (receipt : Option LaunchReceipt)
      → view.terminal ≡ t
      → IsFor request view
      → MayEnd (stop_under_lock_by h id request view t receipt)
  unfolding stop_under_lock_by
  stop_under_lock_by-Ends view (some t) receipt found p =
      Ends-pure _ (λ w. IsFor-IsFinal request view t found p)
  stop_under_lock_by-Ends view none (some receipt) found p =
      Ends-bind _ _ (λ _. Ends-pure none (λ w. tt))
  stop_under_lock_by-Ends view none none found p = Ends-bind _ _ stop_undispatched-Ends

  stop_under_lock-Ends : MayEnd (stop_under_lock h id request)
  unfolding stop_under_lock
  stop_under_lock-Ends =
      Ends-then _ _ (read_view-Ends h id request)
        (λ view w p. (stop_under_lock_by-Ends view view.terminal view.receipt refl p).run w)

  after_lock-Ends :
      (answer : Option SetupView)
      → WhenSome (IsFinal request) answer
      → Final (after_lock h id request answer)
  unfolding after_lock
  after_lock-Ends (some view) q = Ends-pure view (λ w. q)
  after_lock-Ends none q = stop_marked-Ends

  pub stop_locked-Ends :
      Final (with_setup_lock h id (stop_under_lock h id request) >>= after_lock h id request)
  stop_locked-Ends =
      Ends-then _ _ (with_setup_lock-Ends h _ id _ stop_under_lock-Ends)
        (λ answer w q. (after_lock-Ends answer q).run w)
