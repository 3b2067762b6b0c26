-- ===== src/Sessions/Lifecycle.antt =====
-- `call_session`, `inspect_session` and `resolve_scene_path` of src/blendersessiond/sessions.py.
use blendersessiond.Base.{ℕ, String, ◌<>◌, Bool, not, Option, none, some, str_eq, if◌then◌else◌}
use blendersessiond.Json.{Json, Fields}
use blendersessiond.Exec.{
  M, name_lock, wire_lock, session_error, value_error, pure, throw, lift, system, reads, file_lock,
  ◌>>=◌, ◌>>◌,
}
use blendersessiond.Wire.Client.{call_addon, default_connect_timeout}
use blendersessiond.Sessions.Name.{validate_session_name, validate_session_id}
use blendersessiond.Sessions.Record.{SessionRecord}
use blendersessiond.Sessions.Disk.{Store, exists}
use blendersessiond.Sessions.Inspection.{SessionInspection, is_healthy, not_found_inspection}
use blendersessiond.Sessions.Inspect.{Outside, session_directory, port_number, inspect_unlocked}
use blendersessiond.Sessions.Fence.{require_current_session_identity}

-- The path functions of `pathlib`, and the looks at the scene file.
pub record Scenes (S : Type 0) : Type 0 where
  pub expanduser : String → String
  pub lower_suffix : String → String
  pub absolute : String → String
  pub file_exists : String → S → Bool × S
  pub is_regular : String → S → Bool × S

module _ {S : Type 0} (o : Outside S) where
  open o use {kernel, network, sha256}

  -- `not inspection.healthy or inspection.record is None`
  unfoldable pub call_healthy :
      String
      → String
      → Option Fields
      → ℕ
      → SessionInspection
      → Option SessionRecord
      → M S Store Json
  call_healthy component command params read_timeout inspection none =
      throw (session_error inspection.message)
  call_healthy component command params read_timeout inspection (some r) =
      if is_healthy inspection.status
      then file_lock (wire_lock component) (
          call_addon network (port_number r.mcp_port) command params default_connect_timeout
            read_timeout)
      else throw (session_error inspection.message)

  unfoldable pub call_locked :
      String → String → String → Option Fields → String → ℕ → M S Store Json
  unfolding call_healthy
  call_locked component name command params expected_session_id read_timeout = do
    require_current_session_identity sha256 component expected_session_id
    inspection ← inspect_unlocked o name
    call_healthy component command params read_timeout inspection inspection.session

  unfoldable pub call_session : String → Option Fields → String → String → ℕ → M S Store Json
  call_session command params name expected_session_id read_timeout = do
    lift (validate_session_name name)
    lift (validate_session_id expected_session_id)
    component ← lift (session_directory name)
    there ← reads (exists component)
    if there
        then file_lock (name_lock component)
            (call_locked component name command params expected_session_id read_timeout)
        else throw (session_error (not_found_inspection name).message)

  unfoldable pub inspect_session : String → M S Store SessionInspection
  inspect_session name = do
    lift (validate_session_name name)
    component ← lift (session_directory name)
    there ← reads (exists component)
    if there
        then file_lock (name_lock component) (inspect_unlocked o name)
        else pure (not_found_inspection name)

  unfoldable pub resolve_scene_path : Scenes S → String → M S Store String
  resolve_scene_path paths scene_path = do
    let candidate = paths.expanduser scene_path
    if not (str_eq (paths.lower_suffix candidate) ".blend")
        then throw (value_error ("Scene path must end in .blend: " <> candidate <> "."))
        else (do
          let absolute = paths.absolute candidate
          there ← system (paths.file_exists absolute)
          if not there
              then throw (value_error ("Scene file does not exist: " <> absolute <> "."))
              else (do
                regular ← system (paths.is_regular absolute)
                if not regular
                    then throw (value_error ("Scene path is not a file: " <> absolute <> "."))
                    else pure absolute))

  unfoldable pub resolve_scene : Scenes S → Option String → M S Store (Option String)
  resolve_scene paths none = pure none
  resolve_scene paths (some scene_path) = do
    absolute ← resolve_scene_path paths scene_path
    pure (some absolute)
