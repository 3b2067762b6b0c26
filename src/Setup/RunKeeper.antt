-- ===== src/Setup/RunKeeper.antt =====
-- `run_keeper` and `_run_keeper` of src/blendersessiond/windows_setup_process.py. Their `except`
-- clauses catch every exception.
use blendersessiond.Base.{
  ℕ, String, ◌<>◌, show, Bool, true, false, Option, none, some, List, leb, if◌then◌else◌,
}
use blendersessiond.Exec.{
  Error, Result, ok, err, os_error, timeout_error, runtime_error, M, pure, throw, lift, system,
  catch, ◌>>=◌, ◌>>◌,
}
use blendersessiond.Processes.Identity.{process_start_time}
use blendersessiond.Setup.Records.{
  SetupRequest, LaunchReceipt, Outcome, TerminalProcess, Cleanup, launch_failed, process_failed,
  stopped, stopped_before_ownership, cancelled_before_resume, failed, not_resumed, not_started,
  tree_gone, owned, receipt_dict,
}
use blendersessiond.Setup.Stored.{job_scope_name}
use blendersessiond.Setup.Attempt.{
  Attempts, launch_receipt_json, guarded, with_setup_lock, write_create_once,
}
use blendersessiond.Setup.View.{load_request, publish_terminal, publish_now, write_terminal}
use blendersessiond.Setup.Launch.{failure_text}
use blendersessiond.Setup.Stop.{is_kill_failure}
use blendersessiond.Setup.Drain.{output_of}
use blendersessiond.Setup.Keeper.{
  OwnedProcess, KeeperHost, Tried, went, broke, Stage, unowned, suspended, resumed, finished,
  native, tried, read_staged_script, there_is_stop, there_is_terminal, exit_value, wait_for_process,
}

-- `"launch_failed" if not resumed else "process_failed"`, and the process beside it.
abbrev pub failed_outcome : Stage → Outcome
failed_outcome resumed = process_failed
failed_outcome _ = launch_failed

abbrev pub failed_process : Stage → TerminalProcess
failed_process resumed = failed
failed_process _ = not_resumed

abbrev pub is_os_error : Error → Bool
is_os_error (os_error m) = true
is_os_error (timeout_error m) = true
is_os_error _ = false

module _ {S : Type 0} (k : KeeperHost S) where
  open k use {setup}

  unfoldable pub end_job : M S Attempts Unit
  end_job = do native k k.terminate; native k k.wait_empty; pure tt

  -- The terminal record of an attempt that ends under the lock, and the keeper's exit code.
  unfoldable pub conclude :
      String → SetupRequest → Outcome → TerminalProcess → ℕ → M S Attempts (Option ℕ)
  conclude id request outcome process code = do
    now ← system setup.utc_now
    write_terminal setup id request (owned request outcome process tree_gone now none)
    pure (some code)

  -- Behind the check for a terminal record, before the process is created.
  unfoldable pub before_creation : String → SetupRequest → Bool → M S Attempts (Option ℕ)
  before_creation id request true = pure (some 0)
  before_creation id request false = do
    stop ← there_is_stop k id
    if stop then conclude id request stopped_before_ownership not_started 0 else pure none

  unfoldable pub known_identity : Option String → Result String
  known_identity none = err (runtime_error "Setup keeper identity is unavailable.")
  known_identity (some keeper_time) = ok keeper_time

  unfoldable pub receipt_of : SetupRequest → OwnedProcess → String → ℕ → LaunchReceipt
  receipt_of request process keeper_time now = record {
    attempt_id = request.attempt_id;
    launch_id = request.launch_id;
    request_sha256 = request.request_sha256;
    keeper_pid = k.getpid;
    keeper_creation_time = keeper_time;
    root_pid = process.root_pid;
    root_creation_time = "windows:" <> show process.root_creation_filetime;
    job_scope = some job_scope_name;
    owned_at = now;
    job_name = none;
  }

  -- The deadline is behind, or the process is resumed.
  unfoldable pub resume_in_time : String → SetupRequest → ℕ → M S Attempts (Option ℕ)
  resume_in_time id request now =
      if leb request.deadline_utc now
      then (do end_job; native k k.finish_io; conclude id request Outcome.timed_out not_resumed 1)
      else (do native k k.resume; pure none)

  unfoldable pub start_unless : String → SetupRequest → List ℕ → Bool → M S Attempts (Option ℕ)
  start_unless id request script true = do
    end_job
    conclude id request stopped cancelled_before_resume 0
  start_unless id request script false = do
    native k (k.start_io script)
    now ← system setup.utc_now
    resume_in_time id request now

  -- Under the lock: the attempt may have ended; else the receipt is published.
  unfoldable pub take_ownership :
      String → SetupRequest → List ℕ → LaunchReceipt → Bool → M S Attempts (Option ℕ)
  take_ownership id request script receipt true = do end_job; pure (some 0)
  take_ownership id request script receipt false = do
    write_create_once setup id launch_receipt_json (receipt_dict setup.codec receipt)
    stop ← there_is_stop k id
    start_unless id request script stop

  unfoldable pub acknowledge :
      String → SetupRequest → List ℕ → OwnedProcess → M S Attempts (Option ℕ)
  acknowledge id request script process = do
    identity ← process_start_time setup.kernel k.getpid
    keeper_time ← lift (known_identity identity)
    now ← system setup.utc_now
    let receipt = receipt_of request process keeper_time now
    with_setup_lock setup id
        (do ended ← there_is_terminal k id; take_ownership id request script receipt ended)

  -- The wait for the resumed process, and its terminal record.
  unfoldable pub see_through : String → SetupRequest → M S Attempts ℕ
  see_through id request = do
    end ← wait_for_process k id request.deadline_utc
    code ← native k k.exit_code
    gone ← native k k.empty
    if gone then pure tt else native k k.terminate
    native k k.wait_empty
    native k k.finish_io
    both ← system k.output_reads
    stdout ← lift (output_of k.strict both.0)
    stderr ← lift (output_of k.strict both.1)
    now ← system setup.utc_now
    publish_terminal setup id request (finished request end (exit_value code) (stdout, stderr) now)
    pure 0

  unfoldable pub cleanup_at : Stage → M S Attempts Cleanup
  cleanup_at unowned = pure Cleanup.cleanup_unverified
  cleanup_at _ =
      catch (do end_job; pure tree_gone)
        (λ e. if is_kill_failure e then pure Cleanup.cleanup_unverified else throw e)

  -- `except BaseException as error`
  unfoldable pub give_up : String → SetupRequest → Stage → Error → M S Attempts ℕ
  give_up id request stage e = do
    cleanup ← cleanup_at stage
    now ← system setup.utc_now
    catch
        (do
          publish_terminal setup id request (
              owned request (failed_outcome stage) (failed_process stage) cleanup now
                (some (failure_text e)))
          pure tt)
        (λ f. if is_os_error f then pure tt else throw f)
    pure 1

  unfoldable pub or_give_up : String → SetupRequest → Stage → Tried ℕ → M S Attempts ℕ
  or_give_up id request stage (went code) = pure code
  or_give_up id request stage (broke e) = give_up id request stage e

  unfoldable pub after_acknowledge : String → SetupRequest → Tried (Option ℕ) → M S Attempts ℕ
  unfolding or_give_up
  after_acknowledge id request (broke e) = give_up id request suspended e
  after_acknowledge id request (went (some code)) = pure code
  after_acknowledge id request (went none) = do
    seen ← tried k (see_through id request)
    or_give_up id request resumed seen

  unfoldable pub rethrow : {A : Type 0} → Tried A → M S Attempts A
  rethrow (went a) = pure a
  rethrow (broke e) = throw e

  -- `finally: owned.close()`
  unfoldable pub closing : M S Attempts ℕ → M S Attempts ℕ
  unfolding rethrow
  closing body = do end ← tried k body; native k k.close; rethrow end

  unfoldable pub after_creation :
      String → SetupRequest → List ℕ → Tried OwnedProcess → M S Attempts ℕ
  unfolding after_acknowledge
  after_creation id request script (broke e) = give_up id request unowned e
  after_creation id request script (went process) = closing (do
    owned ← tried k (acknowledge id request script process)
    after_acknowledge id request owned)

  unfoldable pub after_first_look :
      String → SetupRequest → List ℕ → Tried (Option ℕ) → M S Attempts ℕ
  unfolding after_creation
  after_first_look id request script (broke e) = give_up id request unowned e
  after_first_look id request script (went (some code)) = pure code
  after_first_look id request script (went none) = do
    process ← tried k (native k (k.create_suspended request))
    after_creation id request script process

  unfoldable pub after_script : String → SetupRequest → Tried (List ℕ) → M S Attempts ℕ
  unfolding after_first_look
  after_script id request (broke e) = do
    publish_now setup id request launch_failed not_started tree_gone (some (failure_text e))
    pure 1
  after_script id request (went script) = do
    look ← tried k (
        with_setup_lock setup id
          (do ended ← there_is_terminal k id; before_creation id request ended))
    after_first_look id request script look

  unfoldable pub after_request : String → Tried SetupRequest → M S Attempts ℕ
  unfolding after_script
  after_request id (broke e) = pure 2
  after_request id (went request) = do
    script ← tried k (read_staged_script k request)
    after_script id request script

  -- The keeper's exit code.
  unfoldable pub run_keeper : String → M S Attempts ℕ
  unfolding after_request
  run_keeper id =
      catch (guarded setup (do request ← tried k (load_request setup id); after_request id request))
        (λ e. pure 2)
