-- ===== src/Sessions/Start.antt =====
-- `start_session` of src/blendersessiond/sessions.py.
use blendersessiond.Base.{
  String, ◌<>◌, Bool, true, false, not, ◌&&◌, ◌||◌, Option, if◌then◌else◌, Environ,
}
use blendersessiond.Exec.{
  M, name_lock, ports_lock, session_error, already_running, pure, throw, lift, writes, file_lock,
  ◌>>=◌, ◌>>◌,
}
use blendersessiond.Discovery.Host.{Host}
use blendersessiond.Discovery.Select.{BlenderDiscovery, passed}
use blendersessiond.Discovery.Discover.{discover_blender}
use blendersessiond.Sessions.Name.{validate_session_name}
use blendersessiond.Sessions.Record.{SessionRecord}
use blendersessiond.Sessions.Disk.{Store, ensure_dir}
use blendersessiond.Sessions.Inspection.{SessionInspection, Status, not_found, is_healthy, show_int}
use blendersessiond.Sessions.Inspect.{Outside, session_directory, inspect_unlocked}
use blendersessiond.Sessions.Ports.{allocate_port}
use blendersessiond.Sessions.Launch.{Launcher, remove_record_files, launch_and_record}
use blendersessiond.Sessions.Lifecycle.{Scenes, resolve_scene}

pub record StartResult : Type 0 where
  pub session : SessionRecord
  pub reclaimed_stale : Bool
  pub message : String

abbrev pub is_not_found : Status → Bool
is_not_found not_found = true
is_not_found _ = false

-- `previous.healthy or (previous.process_alive and previous.stoppable)`
abbrev pub runs : SessionInspection → Bool
runs previous = is_healthy previous.status || (previous.process_alive && previous.stoppable)

unfoldable pub start_message : String → SessionInspection → SessionRecord → String
start_message name previous r =
    if previous.reclaimable
    then previous.message
      <> " Reclaimed Session Name '"
      <> name
      <> "' and started Session on MCP port "
      <> show_int r.mcp_port
      <> "."
    else "Started Session '"
      <> name
      <> "' on MCP port "
      <> show_int r.mcp_port
      <> " (pid "
      <> show_int r.pid
      <> ")."

-- What a start is called with; the platform's name is `platform.system()`.
pub record StartRequest : Type 0 where
  pub name : String
  pub explicit_blender : Option String
  pub scene_path : Option String
  pub environ : Environ
  pub system_name : String

module _ {S : Type 0} (o : Outside S) (l : Launcher S) (h : Host S) where
  remove_if : Bool → String → M S Store Unit
  remove_if true component = remove_record_files o l component
  remove_if false component = pure tt

  -- Under the port lock: choose a port, clear a stale record, launch.
  unfoldable pub launch_on_port :
      StartRequest → String → Bool → BlenderDiscovery → Option String → M S Store SessionRecord
  unfolding remove_if
  launch_on_port request component reclaimed blender scene = do
    port ← allocate_port o request.name request.environ
    remove_if reclaimed component
    launch_and_record o l component request.name blender port request.environ scene

  -- Below the refusals: find Blender, launch it.
  unfoldable pub start_fresh :
      StartRequest → String → Option String → SessionInspection → M S Store StartResult
  start_fresh request component scene previous = do
    blender ← discover_blender h request.explicit_blender request.environ request.system_name
    if not (passed blender) then throw (session_error blender.message) else (do
      r ← file_lock ports_lock (launch_on_port request component previous.reclaimable blender scene)
      pure (record {
        session = r;
        reclaimed_stale = previous.reclaimable;
        message = start_message request.name previous r;
      }))

  unfoldable pub start_after :
      StartRequest → String → Option String → SessionInspection → M S Store StartResult
  start_after request component scene previous =
      if runs previous
      then throw (
          already_running
            ("Session '" <> request.name <> "' is already running; reuse it. " <> previous.message))
      else if not (is_not_found previous.status) && not previous.reclaimable
      then throw (
          session_error (
            previous.message <> " The Session Name cannot be reclaimed because Ownership of a live "
            <> "process cannot be verified."))
      else start_fresh request component scene previous

  unfoldable pub start_locked : StartRequest → String → Option String → M S Store StartResult
  start_locked request component scene = do
    previous ← inspect_unlocked o request.name
    start_after request component scene previous

  unfoldable pub start_session : Scenes S → StartRequest → M S Store StartResult
  start_session paths request = do
    lift (validate_session_name request.name)
    scene ← resolve_scene o paths request.scene_path
    component ← lift (session_directory request.name)
    writes (ensure_dir component)
    file_lock (name_lock component) (start_locked request component scene)
