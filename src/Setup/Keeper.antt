-- ===== src/Setup/Keeper.antt =====
-- The keeper of a Setup Attempt: `run_keeper`, `_run_keeper`, `_wait_for_process` and
-- `_wait_for_owned_job` of src/blendersessiond/windows_setup_process.py, and `read_staged_script` of
-- src/blendersessiond/setup_owner.py.
use blendersessiond.Base.{
  ℕ, zero, suc, ◌+◌, ◌-◌, ◌/◌, ℤ, pos, int_eq, String, Bool, true, false, not, ◌&&◌, ◌||◌, Option,
  none, some, List, ◌==◌, ltb, leb, length, str_eq, if◌then◌else◌,
}
use blendersessiond.Exec.{
  Error, Result, ok, err, os_error, setup_error, M, pure, throw, lift, system, observe, reads,
  catch, ◌>>=◌, ◌>>◌,
}
use blendersessiond.Wire.Utf8.{Decoded, text, decode}
use blendersessiond.Setup.Drain.{Reads, Strict}
use blendersessiond.Setup.Records.{
  SetupRequest, SetupTerminal, Outcome, TerminalProcess, process_failed, process_succeeded, exited,
  tree_gone, owned,
}
use blendersessiond.Setup.Attempt.{
  SetupHost, Attempts, terminal_json, content_of, stop_marker, is_marked, Waited, object_signalled,
  wait_timeout, wait_failed, interleave,
}

-- The suspended root process in its job.
pub record OwnedProcess : Type 0 where
  pub root_pid : ℤ
  pub root_creation_filetime : ℕ

-- The staged script's file: `lstat` and `fstat` of it, and what was read.
pub record StagedFile : Type 0 where
  pub is_regular : Bool
  pub is_same : Bool
  pub size : ℕ
  pub content : List ℕ

pub data Staged : Type 0 where
  file_missing : Staged
  file_failed : String → Staged
  file_read : StagedFile → Staged

-- The system as the keeper meets it. The methods of `WindowsSetupProcess` stand for their calls of
-- the Windows API; `output_reads` is what the drains read.
pub record KeeperHost (S : Type 0) : Type 0 where
  pub setup : SetupHost S
  pub getpid : ℤ
  pub staged : String → S → Staged × S
  pub create_suspended : SetupRequest → S → Result OwnedProcess × S
  pub terminate : S → Result (Unit {0}) × S
  pub wait_empty : S → Result (Unit {0}) × S
  pub start_io : List ℕ → S → Result (Unit {0}) × S
  pub finish_io : S → Result (Unit {0}) × S
  pub resume : S → Result (Unit {0}) × S
  pub close : S → Result (Unit {0}) × S
  pub empty : S → Result Bool × S
  pub wait_root : ℕ → S → Waited × S
  pub exit_code : S → Result ℕ × S
  pub output_reads : S → (Reads × Reads) × S
  pub strict : List ℕ → Strict

-- A run that is taken apart into its result and its exception.
pub data Tried (A : Type 0) : Type 0 where
  went : A → Tried A
  broke : Error → Tried A

-- How far the root process is.
pub data Stage : Type 0 where
  unowned suspended resumed : Stage

abbrev decodes : Decoded → Bool
decodes (text cs) = true
decodes _ = false

abbrev is_zero : ℕ → Bool
is_zero n = n == 0

-- `None if exit_code == _STILL_ACTIVE else exit_code`
abbrev pub exit_value : ℕ → Option ℤ
exit_value code = if code == 259 then none else some (pos code)

abbrev pub exits_zero : Option ℤ → Bool
exits_zero none = false
exits_zero (some z) = int_eq z (pos 0)

-- The ends of the wait: cancelled, timed out, or exited.
pub data WaitEnd : Type 0 where
  was_cancelled was_timed_out has_exited : WaitEnd

abbrev pub process_of : WaitEnd → TerminalProcess
process_of was_cancelled = TerminalProcess.cancelled
process_of was_timed_out = TerminalProcess.timed_out
process_of has_exited = exited

abbrev pub outcome_of : WaitEnd → Option ℤ → Bool → Bool → Outcome
outcome_of was_cancelled code cut_out cut_err = Outcome.cancelled
outcome_of was_timed_out code cut_out cut_err = Outcome.timed_out
outcome_of has_exited code cut_out cut_err =
    if exits_zero code && (not cut_out && not cut_err) then process_succeeded else process_failed

-- The terminal of a root process that was waited for.
unfoldable pub finished :
    SetupRequest → WaitEnd → Option ℤ → (String × Bool) × (String × Bool) → ℕ → SetupTerminal
finished request end code streams now =
    record (owned request (outcome_of end code streams.0.1 streams.1.1) (process_of end) tree_gone
      now none) {
        exit_code = code;
        stdout = streams.0.0;
        stderr = streams.1.0;
        stdout_truncated = streams.0.1;
        stderr_truncated = streams.1.1;
      }

module _ {S : Type 0} (k : KeeperHost S) where
  open k use {setup}

  -- A call that may raise.
  unfoldable pub native : {A : Type 0} → (S → Result A × S) → M S Attempts A
  native call = do answer ← system call; lift answer

  unfoldable pub tried : {A : Type 0} → M S Attempts A → M S Attempts (Tried A)
  tried m = catch (do a ← m; pure (went a)) (λ e. pure (broke e))

  unfoldable pub staged_content : SetupRequest → Staged → Result (List ℕ)
  staged_content request file_missing = err (setup_error "The staged setup script is missing.")
  staged_content request (file_failed m) = err (setup_error m)
  staged_content request (file_read f) =
      if not f.is_regular
      then err (setup_error "The staged setup script must be a regular file.")
      else if not f.is_same
      then err (setup_error "The staged setup script changed while it was opened.")
      else if not (
          int_eq (pos f.size) request.script.size
          && int_eq (pos (length f.content)) request.script.size)
      then err (setup_error "The staged setup script size does not match.")
      else if not (decodes (decode f.content))
      then err (setup_error "The staged setup script is not strict UTF-8.")
      else if not (str_eq (setup.codec.sha256 f.content) request.script.sha256)
      then err (setup_error "The staged setup script SHA-256 does not match.")
      else ok f.content

  unfoldable pub read_staged_script : SetupRequest → M S Attempts (List ℕ)
  unfolding staged_content
  read_staged_script request = do
    file ← system (k.staged request.attempt_id)
    lift (staged_content request file)

  -- `path.exists()`, without a guard.
  unfoldable pub there_is_stop : String → M S Attempts Bool
  there_is_stop id = do interleave setup; reads (λ attempts. is_marked stop_marker (attempts id))

  abbrev is_there : Option (List ℕ) → Bool
  is_there none = false
  is_there (some bytes) = true

  unfoldable pub there_is_terminal : String → M S Attempts Bool
  there_is_terminal id = do
    interleave setup
    reads (λ attempts. is_there (content_of terminal_json (attempts id)))

  unfoldable pub terminated : WaitEnd → M S Attempts WaitEnd
  unfolding native
  terminated end = do native k.terminate; pure end

  -- The deadline is reached: a job that is not empty is terminated.
  unfoldable pub job_timed_out : Bool → M S Attempts WaitEnd
  unfolding terminated
  job_timed_out true = pure was_timed_out
  job_timed_out false = terminated was_timed_out

  -- The two clocks of `_wait_for_owned_job`.
  abbrev past : ℕ → ℕ → ℕ → ℕ → Bool
  past deadline_utc deadline now t = leb deadline_utc now || leb deadline t

  -- `_wait_for_owned_job`; each round sleeps.
  unfoldable pub wait_for_owned_job : ℕ → String → ℕ → ℕ → M S Attempts WaitEnd
  unfolding job_timed_out terminated native
  wait_for_owned_job zero id deadline_utc deadline = do gone ← native k.empty; job_timed_out gone
  wait_for_owned_job (suc fuel) id deadline_utc deadline = do
    let again = wait_for_owned_job fuel id deadline_utc deadline
    stop ← there_is_stop id
    now ← system setup.utc_now
    t ← observe setup.kernel.now
    gone ← if stop then pure false else native k.empty
    if stop
        then terminated was_cancelled
        else if past deadline_utc deadline now t
        then job_timed_out gone
        else if gone
        then pure has_exited
        else (do system (setup.kernel.sleep 20); again)

  unfoldable pub after_wait :
      M S Attempts WaitEnd → M S Attempts WaitEnd → Waited → M S Attempts WaitEnd
  after_wait again job object_signalled = job
  after_wait again job wait_timeout = again
  after_wait again job wait_failed = throw (os_error "WaitForSingleObject failed")

  -- `min(100, max(1, milliseconds))`
  abbrev slice : ℕ → ℕ
  slice n = if ltb 100 n then 100 else if n == 0 then 1 else n

  unfoldable pub wait_round : ℕ → String → ℕ → ℕ → M S Attempts WaitEnd
  unfolding after_wait terminated
  wait_round zero id deadline_utc deadline = terminated was_timed_out
  wait_round (suc fuel) id deadline_utc deadline = do
    let again = wait_round fuel id deadline_utc deadline
    stop ← there_is_stop id
    t ← observe setup.kernel.now
    if stop
        then terminated was_cancelled
        else if leb deadline t
        then terminated was_timed_out
        else (do
          waited ← system (k.wait_root (slice (deadline - t)))
          after_wait again (wait_for_owned_job (suc (deadline - t)) id deadline_utc deadline)
              waited)

  -- The rest of the time in milliseconds, five minutes at most.
  abbrev pub span : ℕ → ℕ → ℕ
  span deadline_utc now =
      let rest = (deadline_utc - now) / 1000 in if ltb 300000 rest then 300000 else rest

  unfoldable pub wait_for_process : String → ℕ → M S Attempts WaitEnd
  unfolding wait_round
  wait_for_process id deadline_utc = do
    now ← system setup.utc_now
    t ← observe setup.kernel.now
    wait_round (suc (span deadline_utc now)) id deadline_utc (t + span deadline_utc now)
