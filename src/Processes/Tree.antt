-- ===== src/Processes/Tree.antt =====
-- Ownership and termination of a process tree in src/blendersessiond/processes.py.
use blendersessiond.Base.{
  ℤ, int_eq, String, ◌<>◌, Bool, true, false, not, ◌||◌, Option, none, some, ◌==◌, if◌then◌else◌,
}
use blendersessiond.Exec.{
  M, taskkilled, os_error, value_error, runtime_error, pure, throw, lift, system, emit, Result, ok,
  err, ◌>>=◌, ◌>>◌,
}
use blendersessiond.Processes.Kernel.{
  Kernel, Platform, windows, Taskkill, exited, timed_out, not_started, garbled, Group, in_group,
  no_process, refused,
}
use blendersessiond.Processes.Identity.{process_matches}
use blendersessiond.Processes.Poll.{poll_for}
use blendersessiond.Processes.Group.{stop_wait, ends_wait, terminate_posix_group}

-- The exit codes that `taskkill` may end with are 0 and 128, no such process.
unfoldable pub taskkill_outcome : String → Taskkill → Result Unit
taskkill_outcome what timed_out = err (runtime_error ("Windows timed out stopping " <> what <> "."))
taskkill_outcome what (not_started m) = err (os_error m)
taskkill_outcome what (garbled m) = err (value_error m)
taskkill_outcome what (exited code details) =
    if code == 0 || code == 128
    then ok tt
    else err (runtime_error ("Windows could not stop " <> what <> ": " <> details))

abbrev pub is_windows : Platform → Bool
is_windows windows = true
is_windows _ = false

-- `os.getpgid(pid) == process_group`, where only a `ProcessLookupError` is caught
unfoldable pub same_group : Group → ℤ → Result Bool
same_group (in_group g) group = ok (int_eq g group)
same_group no_process group = ok false
same_group (refused m) group = err (os_error m)

module _ {S D : Type 0} (k : Kernel S) where
  unfoldable pub terminate_windows_tree : ℤ → M S D Unit
  unfolding taskkill_outcome
  terminate_windows_tree pid = do
    emit (taskkilled true pid)
    completed ← system (k.taskkill true pid)
    lift (taskkill_outcome "the Session process tree" completed)

  unfoldable pub terminate_windows_pid : ℤ → M S D Unit
  unfolding taskkill_outcome
  terminate_windows_pid pid = do
    emit (taskkilled false pid)
    completed ← system (k.taskkill false pid)
    lift (taskkill_outcome "the Job Object keeper" completed)

  unfoldable pub terminate_process_tree : ℤ → String → M S D Unit
  terminate_process_tree pid expected_start_time = do
    matches ← process_matches k pid expected_start_time
    if matches
        then (if is_windows k.platform
            then terminate_windows_tree pid
            else terminate_posix_group k pid)
        else pure tt

  unfoldable pub process_in_group : ℤ → String → ℤ → M S D Bool
  unfolding same_group
  process_in_group pid expected_start_time process_group = do
    matches ← process_matches k pid expected_start_time
    if matches
        then (do group ← system (k.getpgid pid); lift (same_group group process_group))
        else pure false

  unfoldable pub owned_tree_exists : ℤ → String → ℤ → String → M S D Bool
  owned_tree_exists pid expected_start_time controller_pid controller_start_time =
      if is_windows k.platform then process_matches k controller_pid controller_start_time else do
        controller ← process_matches k controller_pid controller_start_time
        if controller then pure true else process_in_group pid expected_start_time controller_pid

  -- One round of the wait for a Job Object: both the keeper and Blender are gone.
  unfoldable pub job_gone : ℤ → String → ℤ → String → M S D (Option (Unit {0}))
  job_gone pid expected_start_time controller_pid controller_start_time = do
    keeper ← process_matches k controller_pid controller_start_time
    if keeper
        then pure none
        else (do blender ← process_matches k pid expected_start_time; pure (ends_wait blender))

  unfoldable pub or_survived : Option (Unit {0}) → M S D Unit
  or_survived (some _) = pure tt
  or_survived none = throw (runtime_error "Windows Job Object did not terminate the Session tree.")

  -- What follows the check of Ownership on Windows.
  unfoldable pub terminate_job : ℤ → String → ℤ → String → M S D Unit
  unfolding or_survived
  terminate_job pid expected_start_time controller_pid controller_start_time = do
    terminate_windows_pid controller_pid
    gone ←
        poll_for k 50 stop_wait
          (job_gone pid expected_start_time controller_pid controller_start_time)
    or_survived gone

  unfoldable pub terminate_owned_tree : ℤ → String → ℤ → String → M S D Unit
  terminate_owned_tree pid expected_start_time controller_pid controller_start_time =
      if not (is_windows k.platform)
      then (do
        controller_matches ← process_matches k controller_pid controller_start_time
        if controller_matches then terminate_posix_group k controller_pid else (do
          member ← process_in_group pid expected_start_time controller_pid
          if member then terminate_posix_group k controller_pid else pure tt))
      else (do
        keeper ← process_matches k controller_pid controller_start_time
        if keeper
            then terminate_job pid expected_start_time controller_pid controller_start_time
            else pure tt)
