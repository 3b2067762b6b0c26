-- ===== src/Setup/Fenced.antt =====
-- The fence of `status_setup` and `stop_setup` in src/blendersessiond/setup_owner.py: the expected
-- request SHA-256 and Launch ID.
use blendersessiond.Base.{
  ◌≡◌, refl, sym, ◌∙◌, arith, String, Bool, true, false, not, ◌||◌, Option, none, some, str_eq,
  eq_iff, if◌then◌else◌,
}
use blendersessiond.Json.{str}
use blendersessiond.Exec.{Result, ok, err, M, setup_error, pure, throw, lift}
use blendersessiond.Exec.Ends.{Ends, Ends-pure, Ends-throw, Ends-if, Ends-bind, Ends-then}
use blendersessiond.Setup.Codec.{validate_sha256, validate_launch_id}
use blendersessiond.Setup.Records.{
  SetupRequest, LaunchReceipt, SetupTerminal, SetupView, unverified_view,
}
use blendersessiond.Setup.Attempt.{SetupHost, Attempts}
use blendersessiond.Setup.View.{ProcessState, same, absent, different, unknown, check_fence}
use blendersessiond.Setup.Answers.{
  IsFor, IsFinal, has_terminal, Ends-weaken, unverified_view-IsFinal, IsFinal-IsFor, read_view-Ends,
  reconcile_owner_loss-Ends,
}
use blendersessiond.Setup.LaunchAnswers.{fail_launch-Ends}
use blendersessiond.Setup.StopAnswers.{stop_locked-Ends}
use blendersessiond.Setup.Stop.{
  unowned_status, status_by_keeper, status_by_receipt, status_by_terminal, status_setup, stop_setup,
}

-- The request is the expected one.
pub record IsExpected (sha256 launch_id : String) (request : SetupRequest) : Type 0 where
  pub sha : sha256 ≡ request.request_sha256
  pub launch : launch_id ≡ request.launch_id

-- What a stop answers: of the expected request, with the end of the attempt or the word that its
-- ownership could not be verified.
pub record StopAnswer (sha256 launch_id : String) (view : SetupView) : Type 0 where
  pub expected : IsExpected sha256 launch_id view.request
  pub final : (has_terminal view.terminal || view.ownership_unverified) ≡ true

abbrev Same : String → Result String → Type 0
Same s (ok t) = t ≡ s
Same s (err e) = Unit

sha256-Same : (s : String) → Same s (validate_sha256 (str s))
unfolding validate_sha256
sha256-Same s = ground arith

launch_id-Same : (s : String) → Same s (validate_launch_id (str s))
unfolding validate_launch_id
launch_id-Same s = ground arith

Same-Ends :
    {S D : Type 0} (s : String) (r : Result String)
    → Same s r
    → Ends {S = S} {D = D} (λ t _. t ≡ s) (lift r)
unfolding lift
Same-Ends s (ok t) p = record { run = λ w. p }
Same-Ends s (err e) p = record { run = λ w. tt }

module _ {S : Type 0} (h : SetupHost S) where
  fence :
      (request : SetupRequest) (sha256 launch_id s l : String)
      → s ≡ sha256
      → l ≡ launch_id
      → Ends {S = S} {D = Attempts}
          (λ _ _. IsExpected sha256 launch_id request)
          (if not (str_eq s request.request_sha256)
            then throw (setup_error "The expected request SHA-256 does not match.")
            else if not (str_eq l request.launch_id)
            then throw (setup_error "The expected Launch ID does not match.")
            else pure tt)
  fence request sha256 launch_id s l p q =
      go (str_eq s request.request_sha256) (str_eq l request.launch_id)
        (eq_iff s request.request_sha256).0 (eq_iff l request.launch_id).0
    where
      go :
          (a b : Bool)
          → (a ≡ true → s ≡ request.request_sha256)
          → (b ≡ true → l ≡ request.launch_id)
          → Ends {S = S} {D = Attempts}
              (λ _ _. IsExpected sha256 launch_id request)
              (if not a
                then throw (setup_error "The expected request SHA-256 does not match.")
                else if not b
                then throw (setup_error "The expected Launch ID does not match.")
                else pure tt)
      go false b x y = Ends-throw _
      go true false x y = Ends-throw _
      go true true x y =
          Ends-pure tt (λ w. record { sha = sym p ∙ x refl; launch = sym q ∙ y refl })

  check_fence-Ends :
      (request : SetupRequest) (sha256 launch_id : String)
      → Ends (λ _ _. IsExpected sha256 launch_id request) (check_fence h request sha256 launch_id)
  unfolding check_fence
  check_fence-Ends request sha256 launch_id =
      Ends-then _ _ (Same-Ends sha256 _ (sha256-Same sha256)) λ s w p.
        (Ends-then _ _ (Same-Ends launch_id _ (launch_id-Same launch_id))
            λ l w q. (fence request sha256 launch_id s l p q).run w).run
          w

  module _ (id : String) (request : SetupRequest) (view : SetupView)
      (of_request : IsFor request view) where
    abbrev For : M S Attempts SetupView → Type 0
    For m = Ends (λ v _. IsFor request v) m

    unverified-For : (receipt : LaunchReceipt) → For (pure (unverified_view request receipt))
    unverified-For receipt =
        Ends-pure _ (λ w. IsFinal-IsFor request _ (unverified_view-IsFinal request receipt))

    unowned_status-Ends : (dispatched : Bool) → For (unowned_status h id request view dispatched)
    unfolding unowned_status
    unowned_status-Ends dispatched = Ends-bind _ _ λ now.
        Ends-if _ _ _ (Ends-pure view (λ w. of_request))
          (Ends-weaken _ (λ v q. record { same = q.same }) (fail_launch-Ends h id request _))

    status_by_keeper-Ends :
        (receipt : LaunchReceipt) (keeper : ProcessState)
        → For (status_by_keeper h id request view receipt keeper)
    unfolding status_by_keeper
    status_by_keeper-Ends receipt same = Ends-pure view (λ w. of_request)
    status_by_keeper-Ends receipt unknown = unverified-For receipt
    status_by_keeper-Ends receipt absent = reconcile_owner_loss-Ends h id request receipt
    status_by_keeper-Ends receipt different = reconcile_owner_loss-Ends h id request receipt

    status_by_receipt-Ends :
        (receipt : Option LaunchReceipt) → For (status_by_receipt h id request view receipt)
    unfolding status_by_receipt
    status_by_receipt-Ends none = Ends-bind _ _ unowned_status-Ends
    status_by_receipt-Ends (some receipt) = Ends-bind _ _ (status_by_keeper-Ends receipt)

    status_by_terminal-Ends :
        (t : Option SetupTerminal) → For (status_by_terminal h id request view t)
    unfolding status_by_terminal
    status_by_terminal-Ends none = status_by_receipt-Ends view.receipt
    status_by_terminal-Ends (some t) = Ends-pure view (λ w. of_request)

  module _ (attempt_id sha256 launch_id : String) where
    IsExpected-view :
        (request : SetupRequest) (view : SetupView)
        → IsExpected sha256 launch_id request
        → IsFor request view
        → IsExpected sha256 launch_id view.request
    IsExpected-view request view e p = rw (p.same) e

    -- A status that returns gives a view of the attempt's request, and only if its SHA-256 and its
    -- Launch ID are the expected ones.
    pub status_setup-Fenced :
        Ends
          (λ view _. IsExpected sha256 launch_id view.request)
          (status_setup h attempt_id sha256 launch_id)
    unfolding status_setup
    status_setup-Fenced = Ends-bind _ _ λ _. Ends-bind _ _ λ id. Ends-bind _ _ λ request.
        Ends-then _ _ (check_fence-Ends request sha256 launch_id) λ _ w e.
          (Ends-weaken _ (λ view p. IsExpected-view request view e p)
              (Ends-then _ _ (read_view-Ends h id request)
                (λ view w p. (status_by_terminal-Ends id request view p view.terminal).run w))).run
            w

    stop_answer :
        (request : SetupRequest) (view : SetupView)
        → IsExpected sha256 launch_id request
        → IsFinal request view
        → StopAnswer sha256 launch_id view
    stop_answer request view e p = record {
      expected = IsExpected-view request view e (IsFinal-IsFor request view p);
      final = p.final;
    }

    -- A stop that returns gives a view of the expected request that says how the attempt ended or
    -- that its ownership could not be verified: never that it is merely accepted or owned.
    pub stop_setup-Final :
        Ends (λ view _. StopAnswer sha256 launch_id view) (stop_setup h attempt_id sha256 launch_id)
    unfolding stop_setup
    stop_setup-Final = Ends-bind _ _ λ _. Ends-bind _ _ λ id. Ends-bind _ _ λ request.
        Ends-then _ _ (check_fence-Ends request sha256 launch_id) λ _ w e.
          (Ends-weaken _ (λ view p. stop_answer request view e p)
              (stop_locked-Ends h id request)).run
            w
