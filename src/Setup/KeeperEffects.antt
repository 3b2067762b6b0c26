-- ===== src/Setup/KeeperEffects.antt =====
-- Whatever survives the steps of Setup/Written.antt survives the steps of the keeper of
-- src/blendersessiond/windows_setup_process.py.
use blendersessiond.Base.{
  ◌≡◌, refl, arith, ◌==◌, ℕ, zero, suc, ℤ, pos, negsuc, String, Bool, true, false, Option, none,
  some, List,
}
use blendersessiond.Exec.{World, Result, M}
use blendersessiond.Exec.Keeps.{
  Keeps, keeps_rules, Keeps-bind, Keeps-system, Keeps-catch, Keeps-if, Keeps-pure,
}
use blendersessiond.Setup.Records.{
  SetupRequest, LaunchReceipt, Outcome, TerminalProcess, Cleanup, launch_failed, stopped,
  stopped_before_ownership, cancelled_before_resume, not_resumed, not_started, tree_gone, owned,
  succeeded,
}
use blendersessiond.Setup.Semantics.{terminal_semantics_are_valid}
use blendersessiond.Setup.Attempt.{
  Attempts, launch_receipt_json, Waited, object_signalled, wait_timeout, wait_failed,
}
use blendersessiond.Setup.Written.{Stable, interleave-keeps, write_create_once-keeps}
use blendersessiond.Setup.Effects.{IsSettling, write_terminal-keeps}
use blendersessiond.Setup.Keeper.{
  KeeperHost, Tried, went, broke, Stage, unowned, suspended, resumed, WaitEnd, was_cancelled,
  was_timed_out, has_exited, finished, native, tried, read_staged_script, there_is_stop,
  there_is_terminal, terminated, job_timed_out, wait_for_owned_job, after_wait, wait_round,
  wait_for_process,
}
use blendersessiond.Setup.RunKeeper.{
  failed_outcome, failed_process, end_job, conclude, before_creation, resume_in_time, start_unless,
  take_ownership, cleanup_at, rethrow, closing,
}

nonzero : (n : ℕ) → (suc n == 0) ≡ false
nonzero n = ground arith

pub finished-valid :
    (request : SetupRequest) (end : WaitEnd) (code : Option ℤ)
    (streams : (String × Bool) × (String × Bool)) (now : ℕ)
    → terminal_semantics_are_valid (finished request end code streams now) ≡ true
unfolding finished owned terminal_semantics_are_valid succeeded
finished-valid request was_cancelled code streams now = refl
finished-valid request was_timed_out code streams now = refl
finished-valid request has_exited none streams now = refl
finished-valid request has_exited (some (negsuc n)) streams now = refl
finished-valid request has_exited (some (pos (suc n))) streams now = rw (nonzero n, nonzero n)
finished-valid request has_exited (some (pos zero)) ((out, false), (cut, false)) now = refl
finished-valid request has_exited (some (pos zero)) ((out, true), (cut, cut_err)) now = refl
finished-valid request has_exited (some (pos zero)) ((out, false), (cut, true)) now = refl

pub gave_up-IsSettling :
    (stage : Stage) (cleanup : Cleanup)
    → IsSettling (failed_outcome stage) (failed_process stage) cleanup
unfolding owned terminal_semantics_are_valid
gave_up-IsSettling unowned cleanup request now m = refl
gave_up-IsSettling suspended cleanup request now m = refl
gave_up-IsSettling resumed cleanup request now m = refl

pub unscripted-IsSettling : IsSettling launch_failed not_started tree_gone
unfolding owned terminal_semantics_are_valid
unscripted-IsSettling request now m = refl

unresumed-IsSettling : IsSettling Outcome.timed_out not_resumed tree_gone
unfolding owned terminal_semantics_are_valid
unresumed-IsSettling request now m = refl

cancelled-IsSettling : IsSettling stopped cancelled_before_resume tree_gone
unfolding owned terminal_semantics_are_valid
cancelled-IsSettling request now m = refl

unstarted-IsSettling : IsSettling stopped_before_ownership not_started tree_gone
unfolding owned terminal_semantics_are_valid
unstarted-IsSettling request now m = refl

module _ {S : Type 0} (k : KeeperHost S) where
  module _ (P : World S Attempts → Type 0) (stable : Stable k.setup P) where
    pub native-keeps : {A : Type 0} (call : S → Result A × S) → Keeps P (native k call)
    unfolding native
    native-keeps call = search (keeps_rules, Keeps-system stable.blind)

    pub tried-keeps : {A : Type 0} (m : M S Attempts A) → Keeps P m → Keeps P (tried k m)
    unfolding tried
    tried-keeps m kept =
        Keeps-catch _ _ (Keeps-bind _ _ kept (λ a. Keeps-pure _)) (λ e. Keeps-pure _)

    there_is_stop-keeps : (id : String) → Keeps P (there_is_stop k id)
    unfolding there_is_stop
    there_is_stop-keeps id = search (keeps_rules, interleave-keeps k.setup P stable)

    pub there_is_terminal-keeps : (id : String) → Keeps P (there_is_terminal k id)
    unfolding there_is_terminal
    there_is_terminal-keeps id = search (keeps_rules, interleave-keeps k.setup P stable)

    pub read_staged_script-keeps : (request : SetupRequest) → Keeps P (read_staged_script k request)
    unfolding read_staged_script
    read_staged_script-keeps request = search (keeps_rules, Keeps-system stable.blind)

    terminated-keeps : (end : WaitEnd) → Keeps P (terminated k end)
    unfolding terminated
    terminated-keeps end = search (keeps_rules, native-keeps)

    job_timed_out-keeps : (gone : Bool) → Keeps P (job_timed_out k gone)
    unfolding job_timed_out
    job_timed_out-keeps true = search keeps_rules
    job_timed_out-keeps false = search terminated-keeps

    wait_for_owned_job-keeps :
        (fuel : ℕ) (id : String) (u d : ℕ) → Keeps P (wait_for_owned_job k fuel id u d)
    unfolding wait_for_owned_job
    wait_for_owned_job-keeps zero id u d = search (keeps_rules, native-keeps, job_timed_out-keeps)
    wait_for_owned_job-keeps (suc fuel) id u d =
        let again = wait_for_owned_job-keeps fuel id u d in
        search
          (
            keeps_rules,
            Keeps-system stable.blind,
            there_is_stop-keeps,
            native-keeps,
            job_timed_out-keeps,
            terminated-keeps,
          )
          depth 12

    after_wait-keeps :
        (again job : M S Attempts WaitEnd) (waited : Waited)
        → Keeps P again
        → Keeps P job
        → Keeps P (after_wait k again job waited)
    unfolding after_wait
    after_wait-keeps again job object_signalled p q = q
    after_wait-keeps again job wait_timeout p q = p
    after_wait-keeps again job wait_failed p q = search keeps_rules

    wait_round-keeps : (fuel : ℕ) (id : String) (u d : ℕ) → Keeps P (wait_round k fuel id u d)
    unfolding wait_round
    wait_round-keeps zero id u d = search terminated-keeps
    wait_round-keeps (suc fuel) id u d =
        let again = wait_round-keeps fuel id u d in
        search
          (
            keeps_rules,
            Keeps-system stable.blind,
            there_is_stop-keeps,
            terminated-keeps,
            after_wait-keeps,
            wait_for_owned_job-keeps,
          )
          depth 12

    pub wait_for_process-keeps : (id : String) (u : ℕ) → Keeps P (wait_for_process k id u)
    unfolding wait_for_process
    wait_for_process-keeps id u = search (keeps_rules, Keeps-system stable.blind, wait_round-keeps)

    end_job-keeps : Keeps P (end_job k)
    unfolding end_job
    end_job-keeps = search (keeps_rules, native-keeps)

    conclude-keeps :
        (id : String) (request : SetupRequest) (o : Outcome) (p : TerminalProcess) (code : ℕ)
        → IsSettling o p tree_gone
        → Keeps P (conclude k id request o p code)
    unfolding conclude
    conclude-keeps id request o p code settling =
        Keeps-bind _ _ (Keeps-system stable.blind _) λ now.
          Keeps-bind _ _
            (write_terminal-keeps k.setup P stable id request _ (settling request now none))
            λ view. Keeps-pure _

    pub before_creation-keeps :
        (id : String) (request : SetupRequest) (ended : Bool)
        → Keeps P (before_creation k id request ended)
    unfolding before_creation
    before_creation-keeps id request true = search keeps_rules
    before_creation-keeps id request false =
        search (keeps_rules, there_is_stop-keeps, conclude-keeps, unstarted-IsSettling)

    resume_in_time-keeps :
        (id : String) (request : SetupRequest) (now : ℕ) → Keeps P (resume_in_time k id request now)
    unfolding resume_in_time
    resume_in_time-keeps id request now =
        Keeps-if _ _ _
          (Keeps-bind _ _ end_job-keeps λ _.
            Keeps-bind _ _ (native-keeps _)
              λ _. conclude-keeps id request _ _ _ unresumed-IsSettling)
          (Keeps-bind _ _ (native-keeps _) (λ _. Keeps-pure _))

    start_unless-keeps :
        (id : String) (request : SetupRequest) (script : List ℕ) (stop : Bool)
        → Keeps P (start_unless k id request script stop)
    unfolding start_unless
    start_unless-keeps id request script true =
        Keeps-bind _ _ end_job-keeps λ _. conclude-keeps id request _ _ _ cancelled-IsSettling
    start_unless-keeps id request script false =
        search (keeps_rules, native-keeps, Keeps-system stable.blind, resume_in_time-keeps)

    pub take_ownership-keeps :
        (id : String) (request : SetupRequest) (script : List ℕ) (receipt : LaunchReceipt)
        (ended : Bool)
        → Keeps P (take_ownership k id request script receipt ended)
    unfolding take_ownership
    take_ownership-keeps id request script receipt true =
        Keeps-bind _ _ end_job-keeps (λ _. Keeps-pure _)
    take_ownership-keeps id request script receipt false =
        Keeps-bind _ _
          (write_create_once-keeps k.setup P stable id launch_receipt_json _ (λ bytes encoded. tt))
          λ _. Keeps-bind _ _ (there_is_stop-keeps id) (start_unless-keeps id request script)

    pub cleanup_at-keeps : (stage : Stage) → Keeps P (cleanup_at k stage)
    unfolding cleanup_at
    cleanup_at-keeps unowned = search keeps_rules
    cleanup_at-keeps suspended = search (keeps_rules, end_job-keeps)
    cleanup_at-keeps resumed = search (keeps_rules, end_job-keeps)

    rethrow-keeps : {A : Type 0} (end : Tried A) → Keeps P (rethrow k end)
    unfolding rethrow
    rethrow-keeps (went a) = search keeps_rules
    rethrow-keeps (broke e) = search keeps_rules

    pub closing-keeps : (body : M S Attempts ℕ) → Keeps P body → Keeps P (closing k body)
    unfolding closing
    closing-keeps body kept =
        Keeps-bind _ _ (tried-keeps body kept)
          λ end. Keeps-bind _ _ (native-keeps _) (λ _. rethrow-keeps end)
