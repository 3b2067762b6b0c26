-- ===== src/Sessions/Stop.antt =====
-- `stop_session` of src/blendersessiond/sessions.py.
use blendersessiond.Base.{String, ◌<>◌, Bool, true, false, not, Option, none, some, if◌then◌else◌}
use blendersessiond.Exec.{
  M, name_lock, ports_lock, assertion_error, pure, throw, lift, reads, file_lock, ◌>>=◌, ◌>>◌,
}
use blendersessiond.Processes.Tree.{terminate_owned_tree}
use blendersessiond.Sessions.Name.{validate_session_name, validate_session_id}
use blendersessiond.Sessions.Record.{SessionRecord}
use blendersessiond.Sessions.Disk.{Store, exists}
use blendersessiond.Sessions.Inspection.{
  SessionInspection, stopped, is_healthy, basic, not_found_inspection,
}
use blendersessiond.Sessions.Inspect.{Outside, session_directory, inspect_unlocked}
use blendersessiond.Sessions.Launch.{Launcher, remove_record_files}
use blendersessiond.Sessions.Fence.{require_current_session_identity}

pub record StopResult : Type 0 where
  pub inspection : SessionInspection
  pub stopped : Bool
  pub message : String

unfoldable pub not_stopped : SessionInspection → String → StopResult
not_stopped inspection text = record {
  inspection = inspection;
  stopped = false;
  message = inspection.message <> text;
}

module _ {S : Type 0} (o : Outside S) (l : Launcher S) where
  -- Kill the recorded tree and remove its record, under the port lock.
  unfoldable pub end_session : String → SessionRecord → M S Store Unit
  end_session component r = file_lock ports_lock (do
    terminate_owned_tree o.kernel r.pid r.process_start_time r.controller_pid
        r.controller_start_time
    remove_record_files o l component)

  unfoldable pub stop_live : String → String → SessionRecord → M S Store StopResult
  stop_live component name r = do
    end_session component r
    pure (record {
      inspection =
          basic name stopped ("Session '" <> name <> "' process tree is gone.") (some r) false
            false;
      stopped = true;
      message = "Stopped Session '" <> name <> "' without saving; log files remain on disk.";
    })

  unfoldable pub stop_stale : String → SessionInspection → M S Store StopResult
  stop_stale component inspection = do
    file_lock ports_lock (remove_record_files o l component)
    pure (not_stopped inspection " Removed the stale Session record.")

  unfoldable pub stop_recorded :
      String → String → SessionInspection → SessionRecord → M S Store StopResult
  stop_recorded component name inspection r =
      if inspection.stoppable
      then stop_live component name r
      else if is_healthy inspection.status
      then throw (assertion_error "healthy Sessions must be stoppable")
      else if not inspection.reclaimable
      then pure (
          not_stopped inspection (
            " Preserved the Session record because Ownership of a live process cannot be "
            <> "verified."))
      else stop_stale component inspection

  -- Behind the fence and the inspection.
  unfoldable pub stop_inspected :
      String → String → SessionInspection → Option SessionRecord → M S Store StopResult
  stop_inspected component name inspection none = pure (not_stopped inspection "")
  stop_inspected component name inspection (some r) = stop_recorded component name inspection r

  unfoldable pub stop_locked : String → String → String → M S Store StopResult
  stop_locked component name expected_session_id = do
    require_current_session_identity o.sha256 component expected_session_id
    inspection ← inspect_unlocked o name
    stop_inspected component name inspection inspection.session

  -- Behind the checks of the arguments.
  unfoldable pub stop_in : String → String → String → M S Store StopResult
  stop_in component name expected_session_id = do
    there ← reads (exists component)
    if there
        then file_lock (name_lock component) (stop_locked component name expected_session_id)
        else pure (not_stopped (not_found_inspection name) "")

  unfoldable pub stop_session : String → String → M S Store StopResult
  stop_session name expected_session_id = do
    lift (validate_session_name name)
    lift (validate_session_id expected_session_id)
    component ← lift (session_directory name)
    stop_in component name expected_session_id
