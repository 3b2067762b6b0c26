-- ===== src/Tests/Machine.antt =====
-- A small machine for runs at concrete inputs: a Linux host with one Session, whose process and
-- addon answer. Its state is the clock.
use blendersessiond.Base.{
  ℕ, ◌+◌, pos, String, true, false, none, some, List, [], ◌∷◌, ◌==◌, ◌&&◌, if◌then◌else◌,
}
use blendersessiond.Json.{str, obj, field, end, holds}
use blendersessiond.Exec.{World}
use blendersessiond.Wire.Receive.{eof, chunk, Loaded, loaded, no_json}
use blendersessiond.Wire.Client.{Network, connected, sent}
use blendersessiond.Processes.Kernel.{
  Kernel, linux, no_group, exited, readable, unreadable, in_group, not_listed,
}
use blendersessiond.Sessions.Record.{SessionRecord, as_dict}
use blendersessiond.Sessions.Disk.{Store, Dir, folder}
use blendersessiond.Sessions.Inspect.{Outside}
use blendersessiond.Sessions.Launch.{Launcher, running}

abbrev pub clock_kernel : Kernel ℕ
clock_kernel = record {
  platform = linux;
  now = λ s. s;
  sleep = λ ms s. (tt, s + ms);
  boot_id = λ s. (readable "boot", s);
  stat = λ pid s. (readable "41 (blender) S 1 41 41 0 0 0 0 0 0 0 0 0 0 0 0 0 0 0 777 0", s);
  ps = λ pid s. (unreadable, s);
  bsd_info = λ pid s. (none, s);
  process_times = λ pid s. (none, s);
  getpgid = λ pid s. (in_group (pos 40), s);
  killpg = λ pid signal s. (no_group, s);
  waitpid = λ pid s. (tt, s);
  proc_entries = λ s. (not_listed, s);
  taskkill = λ tree pid s. (exited 0 "", s);
  touch_gate = λ s. (tt, s);
  is_ready = λ s. (false, s);
  read_bootstrap = λ s. (none, s);
}

-- A codec that knows the text `{}`.
abbrev pub braces : List ℕ → Loaded
braces (a ∷ b ∷ []) = if a == 123 && b == 125 then loaded (obj end) else no_json
braces _ = no_json

abbrev pub brace_network : Network ℕ
brace_network = record {
  connect = λ port ms s. (connected, s);
  send = λ port request ms s. (sent (chunk 123 [] (chunk 125 [] eof)), s);
  loads = braces;
}

abbrev pub machine : Outside ℕ
machine = record { kernel = clock_kernel; network = brace_network; sha256 = λ s. s }

abbrev pub launcher : Launcher ℕ
launcher = record {
  token_hex = λ s. ("00ff", s);
  token_urlsafe = λ s. ("abcdefghijklmnopqrstuvwxyz012345", s);
  utc_now = λ s. ("2024-01-01T00:00:00+00:00", s);
  path_in = λ component file. file;
  spawn = λ arguments s. (running (pos 40), s);
  discard_handshake = λ s. (tt, s);
}

abbrev pub current_id : String
current_id = "bss_abcdefghijklmnopqrstuvwxyz012345"

abbrev pub other_id : String
other_id = "bss_543210zyxwvutsrqponmlkjihgfedcba"

abbrev pub recorded_session : SessionRecord
recorded_session = record {
  schema_version = pos 1;
  session_id = current_id;
  name = "default";
  pid = pos 41;
  process_start_time = "linux:boot:777";
  mcp_port = pos 9876;
  blender_path = "/usr/bin/blender";
  blender_version = "4.2.1";
  stdout_log = "stdout.log";
  stderr_log = "stderr.log";
  state_dir = "state";
  started_at = "2024-01-01T00:00:00+00:00";
  owner_token = "00ff";
  controller_pid = pos 40;
  controller_start_time = "linux:boot:777";
  scene_path = none;
}

abbrev pub recorded_dir : Dir
recorded_dir = record {
  session = some (holds (obj (as_dict recorded_session)));
  launching = none;
  ownership = some (holds (obj (field "token" (str "00ff") end)));
}

abbrev pub one_session : World ℕ Store
one_session = record {
  os = 0;
  disk = record { present = true; entries = ("64656661756c74", folder recorded_dir) ∷ [] };
  held = [];
  events = [];
}
