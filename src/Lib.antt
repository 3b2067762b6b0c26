-- ===== src/Lib.antt =====
-- blendersessiond keeps one owned Blender process per Session Name. A start finds a Blender,
-- takes a port, launches it behind a supervisor or job keeper and records its identity; a call
-- talks to its addon over TCP; an inspection tells what is there; a stop ends exactly the owned
-- process tree. All of them go through the record, the locks and the process identities modelled
-- here.
--
-- The parts, the source files that they model, and what stands where:
-- - Base, Json: helpers on the native numbers, texts, lists, environments, JSON values.
-- - Exec: the runs. A method is a function from a state (operating system, records, held locks,
--   effects so far) to a result or an exception and the next state; what was written before an
--   exception stays written. `file_lock` is that of src/blendersessiond/locking.py. Exec.Keeps,
--   Exec.Locks, Exec.Raises and Exec.Ends hold the rules by which invariants, lock discipline,
--   exceptions and results of a run follow from those of its parts.
-- - Wire: src/blendersessiond/wire.py. Utf8 is Python's strict decoder with its truncated and its
--   invalid case, Receive the loop of `_receive_json` over the chunks that `recv` gives, Reply
--   the checks of a response, Client `call_addon`, `probe_addon` and `query_unsaved_changes`.
-- - Processes: src/blendersessiond/processes.py. Kernel is what is asked of the operating system,
--   Identity the start times, Group and Tree the terminations, Start the start handshake.
--   Looks and Failures are about the exceptions of these, as Wire.Failures, Sessions.Unreadable,
--   Sessions.InspectFailures and Sessions.Failures are about those of the other parts.
-- - Discovery: src/blendersessiond/discovery.py. Version is the version parse, Select the choice
--   among candidates, Discover the sources in their order.
-- - Sessions: src/blendersessiond/sessions.py. Name and Component are names and their
--   directories, Record and Disk the records, Inspection and Inspect the inspection, Ports the
--   port allocation, Launch the launch with its roll back, Fence the check of the Session's
--   identity, Lifecycle `call_session` and `inspect_session`, Start `start_session`, Stop
--   `stop_session`, Overview `inspect_all_sessions`.
-- - Setup: src/blendersessiond/setup_owner.py, the one-time setup attempts on Windows. Codec is
--   what it uses of json, hashlib and datetime, with its checks of identities and times; Records
--   the request, receipt, terminal and view with their dicts; Semantics, Parse and Stored the
--   reads of records; Attempt the directory of an attempt, View, Launch and Stop its operations;
--   Drain, Keeper and RunKeeper the keeper of src/blendersessiond/windows_setup_process.py.
--   Written, Effects, Operations, LaunchEffects, StopEffects, KeeperEffects and KeeperRuns carry
--   an invariant through all of them; CreateOnce and ValidTerminals are such invariants;
--   Answers, LaunchAnswers, StopAnswers and Fenced say what the operations return. Times,
--   Requests and Terminals are about the records that are written and read.
-- - Cli: src/blendersessiond/cli.py. SetupOwner is the command setup-owner of `main`, with
--   Guarantees and Reports about it; Sessions the commands start, status, stop and call, with
--   Views for what they print and ExitCodes for what their exit codes tell.
-- - Tests: a small machine, and the theorems at concrete inputs.
--
-- Parameters: the operating system (Kernel), the addon and `json.loads` (Network), SHA-256, the
-- launcher's spawn and randomness (Launcher), json, times and digests of setup records (Codec),
-- the Windows calls of the setup owner and its keeper (SetupHost, KeeperHost), files and version
-- runs (Host), path functions (PathModule, Scenes). Each takes a state and gives an answer and
-- the next state, so that the outside may do anything between two calls. Another process may not
-- change the records of a Session while a run holds its name lock, which is what the lock is for.
-- A Setup Attempt is shared with its keeper and with other commands: whenever a run holds no
-- lock, its host's `others` may change the attempts first.
--
-- Fuel and bounds: a wait polls on fuel, its span divided by its pause and one more; the keeper's
-- waits run on one round for each millisecond that is left and one more, and end as timed out;
-- the search for a free port runs on one more than the number of occupied ports. Each round of a
-- poll sleeps its pause, and each further round of the search has met one more occupied port.
-- Durations are whole milliseconds. Process ids and ports are integers.
--
-- Not modelled: the other commands, the human-readable output and the parser of cli.py;
-- doctor.py, state.py, mcp_serve.py, posix_launcher.py; the ctypes bindings of
-- windows_setup_process.py and the methods of WindowsSetupProcess that call them (fields of
-- KeeperHost); windows_job.py and windows_path_authority.py; the code that runs inside Blender
-- (blender_bootstrap.py and the vendored addon); the waiting for a lock that another process
-- holds; the RecursionError of a setup request or record with deep nesting; file permissions and
-- failing writes; log files.
pub mod Base
pub mod Json
pub mod Exec
pub mod Wire
pub mod Processes
pub mod Discovery
pub mod Sessions
pub mod Setup
pub mod Cli
mod Tests
