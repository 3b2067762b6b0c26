-- ===== src/Setup/LaunchAnswers.antt =====
-- What `launch_setup` of src/blendersessiond/setup_owner.py answers.
use blendersessiond.Base.{
  ◌≡◌, refl, ℕ, String, Bool, true, false, Option, none, some, List, if◌then◌else◌,
}
use blendersessiond.Exec.{World, ok, M, Error, pure, ◌>>=◌}
use blendersessiond.Exec.Ends.{
  Ends, Ended, Ends-pure, Ends-throw, Ends-lift, Ends-if, Ends-bind, Ends-then, Ends-catch,
}
use blendersessiond.Processes.PollEnds.{WhenSome, poll_for-Ends}
use blendersessiond.Setup.Records.{SetupRequest, SetupTerminal, SetupView, terminal_view}
use blendersessiond.Setup.Parse.{parse_request}
use blendersessiond.Setup.Attempt.{SetupHost, Attempts, with_setup_lock}
use blendersessiond.Setup.View.{read_view, write_terminal}
use blendersessiond.Setup.Answers.{IsFor, with_setup_lock-Ends, read_view-Ends}
use blendersessiond.Setup.Launch.{
  is_settled, Decision, answered, proceed, accept_launch_request, fail_unless, fail_launch,
  report_failure, dispatch, decide, settled_round, or_fail, await_keeper, after_decision,
  launch_setup,
}

-- The view is of this request, and it has a launch receipt or says how the attempt ended.
pub record IsSettled (request : SetupRequest) (view : SetupView) : Type 0 where
  pub same : view.request ≡ request
  pub settled : is_settled view ≡ true

-- What a launch answers: of the request in the bytes, and settled.
pub record LaunchAnswer {S : Type 0} (h : SetupHost S) (raw : List ℕ) (view : SetupView)
    : Type 0 where
  pub parsed : parse_request h.codec raw ≡ ok view.request
  pub settled : is_settled view ≡ true

IsSettled-IsFor :
    (request : SetupRequest) (view : SetupView)
    → IsFor request view
    → is_settled view ≡ true
    → IsSettled request view
IsSettled-IsFor request view p q = record { same = p.same; settled = q }

abbrev WhenAnswered : SetupRequest → Decision → Type 0
WhenAnswered request (answered view) = IsSettled request view
WhenAnswered request (proceed fresh) = Unit

module _ {S : Type 0} (h : SetupHost S) (id : String) (request : SetupRequest) where
  abbrev Settles : M S Attempts SetupView → Type 0
  Settles m = Ends (λ view _. IsSettled request view) m

  abbrev MaySettle : M S Attempts (Option SetupView) → Type 0
  MaySettle m = Ends (λ o _. WhenSome (IsSettled request) o) m

  written-Ends : (terminal : SetupTerminal) → Settles (write_terminal h id request terminal)
  unfolding write_terminal terminal_view is_settled
  written-Ends terminal =
      Ends-bind _ _ (λ _. Ends-pure _ (λ w. record { same = refl; settled = refl }))

  -- A test on a view that was read decides between a settled one and a further run.
  IsSettled-or :
      (view : SetupView) (n : M S Attempts SetupView) (w : World S Attempts)
      → IsFor request view
      → Settles n
      → (b : Bool) → is_settled view ≡ b
      → Ended (λ v _. IsSettled request v) ((if b then pure view else n) w)
  unfolding pure
  IsSettled-or view n w p h true q = IsSettled-IsFor request view p q
  IsSettled-or view n w p h false q = h.run w

  fail_unless-Ends :
      (text : String) (view : SetupView) (w : World S Attempts)
      → IsFor request view
      → Ended (λ v _. IsSettled request v) (fail_unless h id request text view w)
  unfolding fail_unless
  fail_unless-Ends text view w p =
      IsSettled-or view _ w p (Ends-bind _ _ (λ _. Ends-bind _ _ (λ now. written-Ends _)))
        (is_settled view) refl

  pub fail_launch-Ends : (text : String) → Settles (fail_launch h id request text)
  unfolding fail_launch
  fail_launch-Ends text =
      with_setup_lock-Ends h _ id _
        (Ends-then _ _ (read_view-Ends h id request) (fail_unless-Ends text))

  report_failure-Ends : (e : Error) → MaySettle (report_failure h id request e)
  unfolding report_failure pure
  report_failure-Ends e =
      Ends-if _ _ _ (Ends-then _ _ (fail_launch-Ends _) (λ view w q. q)) (Ends-throw e)

  dispatch-Ends : (fresh : Bool) → MaySettle (dispatch h id request fresh)
  unfolding dispatch
  dispatch-Ends true =
      Ends-catch _ _ (Ends-bind _ _ (λ _. Ends-pure none (λ w. tt))) report_failure-Ends
  dispatch-Ends false = Ends-pure none (λ w. tt)

  decided :
      (view : SetupView) (w : World S Attempts)
      → IsFor request view
      → Ended (λ d _. WhenAnswered request d) (decide h id view w)
  unfolding decide pure
  decided view w p = go (is_settled view) refl
    where
      proceeds :
          Ends
            (λ d _. WhenAnswered request d)
            (do
              fresh ←
                  blendersessiond.Setup.Attempt.touch_create_once h id
                    blendersessiond.Setup.Attempt.dispatch_marker
              pure (proceed fresh))
      proceeds = Ends-bind _ _ (λ fresh. Ends-pure _ (λ w. tt))

      go :
          (b : Bool)
          → is_settled view ≡ b
          → Ended
              (λ d _. WhenAnswered request d)
              ((if b then pure (answered view) else (do
                fresh ←
                    blendersessiond.Setup.Attempt.touch_create_once h id
                      blendersessiond.Setup.Attempt.dispatch_marker
                pure (proceed fresh)))
                w)
      go true q = IsSettled-IsFor request view p q
      go false q = proceeds.run w

  decision-Ends :
      Ends
        (λ d _. WhenAnswered request d)
        (with_setup_lock h id (do view ← read_view h id request; decide h id view))
  decision-Ends =
      with_setup_lock-Ends h _ id _ (Ends-then _ _ (read_view-Ends h id request) decided)

  IsSettled-when :
      (view : SetupView) (b : Bool)
      → is_settled view ≡ b
      → IsFor request view
      → WhenSome (IsSettled request) (if b then some view else none)
  IsSettled-when view true q p = IsSettled-IsFor request view p q
  IsSettled-when view false q p = tt

  settled_round-Ends : MaySettle (settled_round h id request)
  unfolding settled_round pure
  settled_round-Ends =
      Ends-then _ _ (read_view-Ends h id request)
        (λ view w p. IsSettled-when view (is_settled view) refl p)

  or_fail-Ends :
      (settled : Option SetupView)
      → WhenSome (IsSettled request) settled
      → Settles (or_fail h id request settled)
  unfolding or_fail
  or_fail-Ends (some view) q = Ends-pure view (λ w. q)
  or_fail-Ends none q = fail_launch-Ends _

  await_keeper-Ends :
      (failed : Option SetupView)
      → WhenSome (IsSettled request) failed
      → Settles (await_keeper h id request failed)
  unfolding await_keeper
  await_keeper-Ends (some view) q = Ends-pure view (λ w. q)
  await_keeper-Ends none q =
      Ends-then _ _ (poll_for-Ends h.kernel 20 (IsSettled request) _ settled_round-Ends 15000)
        (λ settled w p. (or_fail-Ends settled p).run w)

  after_decision-Ends :
      (d : Decision) → WhenAnswered request d → Settles (after_decision h id request d)
  unfolding after_decision
  after_decision-Ends (answered view) q = Ends-pure view (λ w. q)
  after_decision-Ends (proceed fresh) q =
      Ends-then _ _ (dispatch-Ends fresh) (λ failed w p. (await_keeper-Ends failed p).run w)

module _ {S : Type 0} (h : SetupHost S) (raw : List ℕ) where
  accept-Ends :
      Ends (λ request _. parse_request h.codec raw ≡ ok request) (accept_launch_request h raw)
  unfolding accept_launch_request
  accept-Ends = Ends-bind _ _ λ now.
      Ends-then _ _ (Ends-lift _ (λ request found w. found)) λ request w found.
        (Ends-bind _ _
            λ id. Ends-bind _ _ λ _. Ends-bind _ _ λ _. Ends-pure request (λ w. found)).run
          w

  answer :
      (request : SetupRequest) (view : SetupView)
      → parse_request h.codec raw ≡ ok request
      → IsSettled request view
      → LaunchAnswer h raw view
  answer request view found q = record { parsed = rw (q.same) found; settled = q.settled }

  -- A launch that returns gives a view of the request in the bytes, which has a launch receipt or a
  -- terminal record: it never leaves the attempt merely accepted.
  pub launch_setup-Settles : Ends (λ view _. LaunchAnswer h raw view) (launch_setup h raw)
  unfolding launch_setup
  launch_setup-Settles = Ends-bind _ _ λ _. Ends-then _ _ accept-Ends λ request w found.
      (Ends-bind _ _ λ id.
          blendersessiond.Setup.Answers.Ends-weaken _ (λ view q. answer request view found q)
            (Ends-then _ _ (decision-Ends h id request)
              (λ d w q. (after_decision-Ends h id request d q).run w))).run
        w
