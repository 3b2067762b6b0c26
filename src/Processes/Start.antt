-- ===== src/Processes/Start.antt =====
-- The waits for a launched process in src/blendersessiond/processes.py: for its identity, and for
-- the PID that the launcher writes to the bootstrap file once its gate is open.
use blendersessiond.Base.{
  ℤ, pos, is_positive, String, ◌<>◌, Bool, true, false, Option, none, some, str_eq, if◌then◌else◌,
  ℕ,
}
use blendersessiond.Json.{
  Json, int, bool, str, obj, Fields, get, File, bad, not_parsed, nested_too_deep, holds,
}
use blendersessiond.Exec.{
  Error, M, value_error, runtime_error, type_error, pure, throw, system, ◌>>=◌, ◌>>◌,
}
use blendersessiond.Processes.Kernel.{Kernel}
use blendersessiond.Processes.Identity.{process_start_time}
use blendersessiond.Processes.Poll.{poll_for}
use blendersessiond.Processes.Tree.{terminate_windows_pid}

abbrev pub identity_wait : ℕ
identity_wait = 2000

abbrev pub start_wait : ℕ
start_wait = 15000

-- What the bootstrap file says; `escaped` is an exception that its reader does not catch. Python counts `true` as the integer 1.
pub data Report : Type 0 where
  unread launching unusable no_object : Report
  failure : Json → Report
  escaped : Error → Report
  started : ℤ → Report

abbrev positive_pid : Option Json → Option ℤ
positive_pid (some (int z)) = if is_positive z then some z else none
positive_pid (some (bool true)) = some (pos 1)
positive_pid _ = none

abbrev says_launching : Option Json → Bool
says_launching (some (str s)) = str_eq s "launching"
says_launching _ = false

fields_report : Fields → Report
fields_report fields = elim (get "error" fields) [
  | some e ↦ failure e
  | none ↦ elim (positive_pid (get "pid" fields)) [
    | some pid ↦ started pid
    | none ↦ if says_launching (get "status" fields) then launching else unusable
  ]
]

unfoldable pub report : Option File → Report
unfolding fields_report
report none = unread
report (some (bad m)) = unread
report (some (not_parsed m)) = escaped (value_error m)
report (some (nested_too_deep m)) = escaped (runtime_error m)
report (some (holds (obj fields))) = fields_report fields
report (some (holds other)) = no_object

-- The end of a round: a PID, a `break`, or another round.
pub data Round : Type 0 where
  pid : ℤ → Round
  break : Round

abbrev error_text : Json → String
error_text (str s) = s
error_text other = "?"

abbrev pub broken_off : Option String → Option Round
broken_off none = some break
broken_off (some identity) = none

module _ {S D : Type 0} (k : Kernel S) where
  unfoldable pub wait_for_process_start_time : ℤ → M S D (Option String)
  wait_for_process_start_time process = poll_for k 20 identity_wait (process_start_time k process)

  -- `if process_start_time(pid) is None: break`
  unfoldable pub unless_gone : ℤ → M S D (Option Round)
  unless_gone launcher = do identity ← process_start_time k launcher; pure (broken_off identity)

  unfoldable pub posix_round : ℤ → Report → M S D (Option Round)
  posix_round supervisor unread = unless_gone supervisor
  posix_round supervisor launching = pure none
  posix_round supervisor unusable = pure (some break)
  posix_round supervisor (escaped e) = throw e
  posix_round supervisor no_object = throw (type_error "the report is no object")
  posix_round supervisor (failure e) =
      throw (runtime_error ("POSIX Blender launch failed: " <> error_text e))
  posix_round supervisor (started p) = pure (some (pid p))

  unfoldable pub posix_result : Option Round → M S D ℤ
  posix_result (some (pid p)) = pure p
  posix_result _ = throw (runtime_error "POSIX supervisor did not report Blender startup.")

  unfoldable pub finish_posix_start : ℤ → M S D ℤ
  finish_posix_start supervisor_pid = do
    system k.touch_gate
    outcome ←
        poll_for k 20 start_wait
          (do payload ← system k.read_bootstrap; posix_round supervisor_pid (report payload))
    posix_result outcome

  unfoldable pub ready_round : ℤ → Bool → M S D (Option (Unit {0}))
  ready_round keeper true = pure (some tt)
  ready_round keeper false = do
    identity ← process_start_time k keeper
    elim identity [
      | none ↦ throw (runtime_error "Windows Job Object keeper exited before readiness.")
      | some _ ↦ pure none
    ]

  unfoldable pub windows_round : ℤ → Report → M S D (Option Round)
  windows_round keeper unread = unless_gone keeper
  windows_round keeper launching = pure (some break)
  windows_round keeper unusable = pure (some break)
  windows_round keeper (escaped e) = throw e
  windows_round keeper no_object = throw (type_error "the report is no object")
  windows_round keeper (failure e) =
      throw (runtime_error ("Windows Job Object launch failed: " <> error_text e))
  windows_round keeper (started p) = pure (some (pid p))

  unfoldable pub windows_result : ℤ → Option Round → M S D ℤ
  windows_result keeper (some (pid p)) = pure p
  windows_result keeper _ = do
    terminate_windows_pid k keeper
    throw (runtime_error "Windows Job Object keeper did not report Blender startup.")

  unfoldable pub finish_windows_job_start : ℤ → M S D ℤ
  finish_windows_job_start keeper_pid = do
    poll_for k 20 start_wait (do ready ← system k.is_ready; ready_round keeper_pid ready)
    ready ← system k.is_ready
    if ready
        then (do
          system k.touch_gate
          outcome ←
              poll_for k 20 start_wait
                (do payload ← system k.read_bootstrap; windows_round keeper_pid (report payload))
          windows_result keeper_pid outcome)
        else throw (runtime_error "Windows Job Object keeper readiness timed out.")
