-- ===== src/Sessions/Launch.antt =====
-- `_launch_and_record` and `_remove_record_files` of src/blendersessiond/sessions.py.
use blendersessiond.Base.{
  ℤ, pos, negsuc, String, ◌<>◌, Option, none, some, Environ, insert, if◌then◌else◌,
}
use blendersessiond.Json.{holds, str, obj, field, end}
use blendersessiond.Exec.{
  Error, M, session_error, assertion_error, os_error, spawned, pure, throw, system, writes, emit,
  catch, or_raise, ◌>>=◌, ◌>>◌,
}
use blendersessiond.Discovery.Select.{BlenderDiscovery}
use blendersessiond.Processes.Tree.{is_windows, terminate_owned_tree}
use blendersessiond.Processes.Start.{
  wait_for_process_start_time, finish_posix_start, finish_windows_job_start,
}
use blendersessiond.Sessions.Record.{SessionRecord, as_dict}
use blendersessiond.Sessions.Disk.{Dir, Store, change_dir, without_records}
use blendersessiond.Sessions.Inspection.{show_int}
use blendersessiond.Sessions.Inspect.{Outside}

-- What the launcher process is started with.
pub record Arguments : Type 0 where
  pub executable : String
  pub stdout_path : String
  pub stderr_path : String
  pub environ : Environ
  pub scene_path : Option String

pub data Spawned : Type 0 where
  running : ℤ → Spawned
  spawn_failed : String → Spawned

-- `secrets`, the clock, resolved paths, and `Popen` of the launcher, which waits behind its gate.
-- `discard_handshake` removes the gate and bootstrap files.
pub record Launcher (S : Type 0) : Type 0 where
  pub token_hex : S → String × S
  pub token_urlsafe : S → String × S
  pub utc_now : S → String × S
  pub path_in : String → String → String
  pub spawn : Arguments → S → Spawned × S
  pub discard_handshake : S → Unit {0} × S

abbrev pub owner_variable : String
owner_variable = "BLENDERSESSIOND_OWNER_TOKEN"

abbrev pub port_variable : String
port_variable = "BLENDERSESSIOND_MCP_PORT"

-- The facts of a launch that are known before a process runs.
pub record Plan : Type 0 where
  pub component : String
  pub name : String
  pub blender_path : String
  pub blender_version : String
  pub mcp_port : ℤ
  pub stdout_log : String
  pub stderr_log : String
  pub state_dir : String
  pub started_at : String
  pub owner_token : String
  pub session_id : String
  pub scene_path : Option String

-- `SessionRecord(...)`, once for the controller and once for Blender.
unfoldable pub record_of : Plan → ℤ → String → ℤ → String → SessionRecord
record_of plan pid start_time controller_pid controller_start_time = record {
  schema_version = pos 1;
  session_id = plan.session_id;
  name = plan.name;
  pid = pid;
  process_start_time = start_time;
  mcp_port = plan.mcp_port;
  blender_path = plan.blender_path;
  blender_version = plan.blender_version;
  stdout_log = plan.stdout_log;
  stderr_log = plan.stderr_log;
  state_dir = plan.state_dir;
  started_at = plan.started_at;
  owner_token = plan.owner_token;
  controller_pid = controller_pid;
  controller_start_time = controller_start_time;
  scene_path = plan.scene_path;
}

-- `_atomic_write_json` of the Ownership marker, of `launching.json` and of `session.json`.
unfoldable pub with_ownership : String → Dir → Dir
with_ownership token d = record d { ownership = some (holds (obj (field "token" (str token) end))) }

unfoldable pub with_launching : SessionRecord → Dir → Dir
with_launching r d = record d { launching = some (holds (obj (as_dict r))) }

unfoldable pub with_session : SessionRecord → Dir → Dir
with_session r d = record d { session = some (holds (obj (as_dict r))) }

unfoldable pub without_launching : Dir → Dir
without_launching d = record d { launching = none }

-- The process and its identity as far as the launch has come, for the `except` clause.
pub data Progress : Type 0 where
  before_identity : Progress
  controlled : ℤ → String → Progress
  reported : ℤ → String → ℤ → Progress

abbrev pub or_empty_text : Option String → String
or_empty_text none = ""
or_empty_text (some t) = t

module _ {S : Type 0} (o : Outside S) (l : Launcher S) where
  open o use {kernel}

  unfoldable pub remove_record_files : String → M S Store Unit
  remove_record_files component = do
    writes (change_dir component without_records)
    system l.discard_handshake

  -- The part of `except BaseException` that ends the processes of the launch.
  unfoldable pub abandon : Progress → M S Store Unit
  abandon before_identity = pure tt
  abandon (controlled controller start) = terminate_owned_tree kernel (negsuc 0) "" controller start
  abandon (reported controller start process) = do
    process_time ← wait_for_process_start_time kernel process
    terminate_owned_tree kernel process (or_empty_text process_time) controller start

  -- `except BaseException: …; raise`
  unfoldable pub roll_back : {A : Type 0} → String → Progress → Error → M S Store A
  roll_back component progress error = do
    abandon progress
    remove_record_files component
    throw error

  unfoldable pub spawn_answer : Spawned → M S Store ℤ
  spawn_answer (running pid) = do emit (spawned pid); pure pid
  spawn_answer (spawn_failed m) = throw (os_error m)

  unfoldable pub finish_start : ℤ → M S Store ℤ
  finish_start controller =
      if is_windows kernel.platform
      then finish_windows_job_start kernel controller
      else finish_posix_start kernel controller

  unfoldable pub identity_or : ℤ → String → M S Store String
  identity_or pid text = do
    identity ← wait_for_process_start_time kernel pid
    or_raise identity (session_error text)

  unfoldable pub write_provisional : Plan → ℤ → String → M S Store Unit
  write_provisional plan controller start = do
    writes (change_dir plan.component (with_ownership plan.owner_token))
    writes (
        change_dir plan.component
          (with_launching (record_of plan controller start controller start)))

  unfoldable pub write_record : Plan → ℤ → String → ℤ → M S Store SessionRecord
  write_record plan controller start process = do
    start_time ←
        identity_or process
          ("Blender exited before Session '" <> plan.name <> "' could be recorded.")
    let r = record_of plan process start_time controller start
    writes (change_dir plan.component (with_ownership plan.owner_token))
    writes (change_dir plan.component (with_session r))
    writes (change_dir plan.component without_launching)
    pure r

  -- The `try` block. Each step stands under the `except` clause with what is known there.
  unfoldable pub launch_steps : Plan → Arguments → M S Store SessionRecord
  launch_steps plan arguments = do
    controller ←
        catch
          (do system l.discard_handshake; answer ← system (l.spawn arguments); spawn_answer answer)
          (roll_back plan.component before_identity)
    start ←
        catch (identity_or controller "Session process-tree controller exited during startup.")
          (roll_back plan.component before_identity)
    process ←
        catch (do write_provisional plan controller start; finish_start controller)
          (roll_back plan.component (controlled controller start))
    catch (write_record plan controller start process)
        (roll_back plan.component (reported controller start process))

  -- `finally: bootstrap_path.unlink(…); gate_path.unlink(…)`, as a run.
  unfoldable pub tidy : {A : Type 0} → M S Store A → M S Store A
  tidy body = do
    result ← catch body (λ e. do system l.discard_handshake; throw e)
    system l.discard_handshake
    pure result

  -- `blender.path is None or blender.version is None`
  unfoldable pub resolved : Option String → Option String → M S Store (String × String)
  resolved (some path) (some version) = pure (path, version)
  resolved _ _ = throw (assertion_error "Blender must be resolved before launch")

  unfoldable pub launch_and_record :
      String → String → BlenderDiscovery → ℤ → Environ → Option String → M S Store SessionRecord
  launch_and_record component name blender port environment scene_path = do
    found ← resolved blender.path blender.version
    owner_token ← system l.token_hex
    random ← system l.token_urlsafe
    started_at ← system l.utc_now
    let plan : Plan = record {
      component = component;
      name = name;
      blender_path = found.0;
      blender_version = found.1;
      mcp_port = port;
      stdout_log = l.path_in component "stdout.log";
      stderr_log = l.path_in component "stderr.log";
      state_dir = l.path_in component "";
      started_at = started_at;
      owner_token = owner_token;
      session_id = "bss_" <> random;
      scene_path = scene_path;
    }
    tidy (
        launch_steps plan (record {
          executable = found.0;
          stdout_path = plan.stdout_log;
          stderr_path = plan.stderr_log;
          environ =
              insert port_variable (show_int port) (insert owner_variable owner_token environment);
          scene_path = scene_path;
        }))
