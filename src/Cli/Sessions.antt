-- ===== src/Cli/Sessions.antt =====
-- The commands `start`, `status`, `stop` and `call` in `main` of src/blendersessiond/cli.py, with
-- `--json`: the exit code, and what is printed on the standard output.
use blendersessiond.Base.{
  ℕ, pos, String, ◌<>◌, show, Bool, true, false, ◌&&◌, Option, none, some, List, [], ◌∷◌, length,
  all, if◌then◌else◌,
}
use blendersessiond.Json.{Json, bool, int, str, arr, obj, Items, nil, cons, Fields, field, end}
use blendersessiond.Exec.{Error, wire_error, message, M, pure, throw, catch, ◌>>=◌}
use blendersessiond.Discovery.Host.{Host}
use blendersessiond.Wire.Client.{reason_text}
use blendersessiond.Sessions.Disk.{Store}
use blendersessiond.Sessions.Inspection.{SessionInspection, is_healthy, status_text}
use blendersessiond.Sessions.Inspect.{Outside}
use blendersessiond.Sessions.Launch.{Launcher}
use blendersessiond.Sessions.Lifecycle.{call_session, inspect_session, Scenes}
use blendersessiond.Sessions.Overview.{inspect_all_sessions}
use blendersessiond.Sessions.Start.{StartResult, StartRequest, start_session}
use blendersessiond.Sessions.Stop.{StopResult, stop_session}
use blendersessiond.Cli.SetupOwner.{is_caught}
use blendersessiond.Cli.Views.{public_dict, inspection_dict, failure_dict}

unfoldable pub started : StartResult → ℕ × Json
started result = (
  0,
  obj (
      field "schema_version" (int (pos 1)) (
        field "status" (str "started") (
          field "message" (str result.message) (
            field "reclaimed_stale" (bool result.reclaimed_stale)
              (field "session" (obj (public_dict result.session)) end))))),
)

unfoldable pub inspected : SessionInspection → ℕ × Json
inspected inspection = (
  if is_healthy inspection.status then 0 else 1,
  obj (
      field "schema_version" (int (pos 1)) (
        field "status" (str (status_text inspection.status))
          (field "session" (obj (inspection_dict inspection)) end))),
)

abbrev any_sessions : List SessionInspection → Bool
any_sessions [] = false
any_sessions (i ∷ is) = true

unfoldable pub all_healthy : List SessionInspection → Bool
all_healthy inspections =
    any_sessions inspections && all (λ inspection. is_healthy inspection.status) inspections

unfoldable pub dicts : List SessionInspection → Items
dicts [] = nil
dicts (i ∷ is) = cons (obj (inspection_dict i)) (dicts is)

unfoldable pub overview : List SessionInspection → ℕ × Json
unfolding all_healthy dicts
overview inspections = (
  if all_healthy inspections then 0 else 1,
  obj (
      field "schema_version" (int (pos 1)) (
        field "status" (str (if all_healthy inspections then "healthy" else "unhealthy")) (
          field "message"
            (str (
              if any_sessions inspections
              then "Found " <> show (length inspections) <> " recorded Session(s)."
              else "No Sessions found."))
            (field "sessions" (arr (dicts inspections)) end)))),
)

unfoldable pub stopped : StopResult → ℕ × Json
stopped result = (
  if result.stopped then 0 else 1,
  obj (
      field "schema_version" (int (pos 1)) (
        field "status"
          (str (if result.stopped then "stopped" else status_text result.inspection.status))
          (field "message" (str result.message)
            (field "session" (obj (inspection_dict result.inspection)) end)))),
)

abbrev reason_of : Error → Option String
reason_of (wire_error reason m) = some (reason_text reason)
reason_of e = none

module _ {S : Type 0} where
  -- `try: … except (OSError, RuntimeError, ValueError): _print_failure(…); return 1`
  unfoldable pub or_failure : String → M S Store (ℕ × Json) → M S Store (ℕ × Json)
  or_failure command body =
      catch body (λ e.
        if is_caught e then pure (1, obj (failure_dict command (message e) none)) else throw e)

  -- The failure of a call names the reason of a `WireError`.
  unfoldable pub or_call_failure : M S Store (ℕ × Json) → M S Store (ℕ × Json)
  or_call_failure body = catch body (λ e.
      if is_caught e
      then pure (1, obj (failure_dict "call" (message e) (reason_of e)))
      else throw e)

  module _ (o : Outside S) where
    status_body : Option String → M S Store (ℕ × Json)
    status_body (some name) = do inspection ← inspect_session o name; pure (inspected inspection)
    status_body none = do inspections ← inspect_all_sessions o; pure (overview inspections)

    unfoldable pub status_command : Option String → M S Store (ℕ × Json)
    unfolding status_body
    status_command name = or_failure "status" (status_body name)

    unfoldable pub call_command :
        String → Option Fields → String → String → ℕ → M S Store (ℕ × Json)
    call_command command params name expected_session_id read_timeout = or_call_failure (do
      result ← call_session o command params name expected_session_id read_timeout
      pure (0, result))

    module _ (l : Launcher S) where
      unfoldable pub stop_command : String → String → M S Store (ℕ × Json)
      stop_command name expected_session_id =
          or_failure "stop"
            (do result ← stop_session o l name expected_session_id; pure (stopped result))

      unfoldable pub start_command : Host S → Scenes S → StartRequest → M S Store (ℕ × Json)
      start_command h paths request =
          or_failure "start" (do result ← start_session o l h paths request; pure (started result))
