-- ===== src/Sessions/Record.antt =====
-- `SessionRecord` of src/blendersessiond/sessions.py, what is written of it and how it is read.
use blendersessiond.Base.{
  ℤ, pos, is_positive, between, String, ◌<>◌, Bool, true, false, ◌&&◌, Option, none, some, ◌≡◌,
  int_eq,
}
use blendersessiond.Json.{
  Json, null, int, str, obj, Fields, field, end, get, as_str, as_int, File, bad, not_parsed,
  nested_too_deep, holds,
}
use blendersessiond.Exec.{
  Error, Result, ok, err, os_error, value_error, runtime_error, timeout_error,
}
use blendersessiond.Sessions.Name.{validate_session_id}

pub record SessionRecord : Type 0 where
  pub schema_version : ℤ
  pub session_id : String
  pub name : String
  pub pid : ℤ
  pub process_start_time : String
  pub mcp_port : ℤ
  pub blender_path : String
  pub blender_version : String
  pub stdout_log : String
  pub stderr_log : String
  pub state_dir : String
  pub started_at : String
  pub owner_token : String
  pub controller_pid : ℤ
  pub controller_start_time : String
  pub scene_path : Option String

abbrev pub or_none : Option String → Json
or_none none = null
or_none (some s) = str s

-- `asdict(record)`
unfoldable pub as_dict : SessionRecord → Fields
as_dict r = field "schema_version" (int r.schema_version) (
    field "session_id" (str r.session_id) (
      field "name" (str r.name) (
        field "pid" (int r.pid) (
          field "process_start_time" (str r.process_start_time) (
            field "mcp_port" (int r.mcp_port) (
              field "blender_path" (str r.blender_path) (
                field "blender_version" (str r.blender_version) (
                  field "stdout_log" (str r.stdout_log) (
                    field "stderr_log" (str r.stderr_log) (
                      field "state_dir" (str r.state_dir) (
                        field "started_at" (str r.started_at) (
                          field "owner_token" (str r.owner_token) (
                            field "controller_pid" (int r.controller_pid) (
                              field "controller_start_time" (str r.controller_start_time)
                                (field "scene_path" (or_none r.scene_path) end)))))))))))))))

-- A value, or the `ValueError` that names the field.
infixl 5 ◌>>=◌ ◌>>◌
abbrev pub ◌>>=◌ : {A B : Type 0} → Result A → (A → Result B) → Result B
ok a >>= f = f a
err e >>= f = err e

abbrev pub ◌>>◌ : {A B : Type 0} → Result A → Result B → Result B
m >> n = m >>= λ _. n

abbrev pub check : Bool → String → Result (Unit {0})
check true m = ok tt
check false m = err (value_error m)

or_invalid : {A : Type 0} → String → Option A → Result A
or_invalid key none = err (value_error ("field '" <> key <> "' is missing or invalid"))
or_invalid key (some a) = ok a

unfoldable pub required_str : Fields → String → Result String
unfolding or_invalid
required_str payload key = or_invalid key (as_str (get key payload))

unfoldable pub required_int : Fields → String → Result ℤ
unfolding or_invalid
required_int payload key = or_invalid key (as_int (get key payload))

-- `payload.get("scene_path")`, None or a text
unfoldable pub optional_scene : Option Json → Result (Option String)
optional_scene none = ok none
optional_scene (some null) = ok none
optional_scene (some (str s)) = ok (some s)
optional_scene _ = err (value_error "field 'scene_path' is invalid")

-- `hashlib.sha256(text.encode("utf-8")).hexdigest()`
abbrev pub Digest : Type 0
Digest = String → String

unfoldable pub legacy_session_id : Digest → String → String
legacy_session_id sha256 owner_token = "bss_legacy_" <> sha256 owner_token

-- `payload.get("session_id")`; a record without one gets an id from its Ownership token, and a
-- value that is no text is refused by `validate_session_id`.
unfoldable pub recorded_id : Digest → Option Json → String → Result String
recorded_id sha256 none owner_token = ok (legacy_session_id sha256 owner_token)
recorded_id sha256 (some null) owner_token = ok (legacy_session_id sha256 owner_token)
recorded_id sha256 (some (str s)) owner_token = ok s
recorded_id sha256 _ owner_token = err (
    value_error (
      "Session ID must be an opaque bss_ identity returned by blendersessiond start or "
      <> "status."))

-- `_read_record`, on the JSON object that `_read_json` gives.
unfoldable pub parse_record : Digest → Fields → Result SessionRecord
unfolding required_str required_int optional_scene recorded_id
parse_record sha256 payload = do
  schema_version ← required_int payload "schema_version"
  name ← required_str payload "name"
  pid ← required_int payload "pid"
  process_start_time ← required_str payload "process_start_time"
  mcp_port ← required_int payload "mcp_port"
  blender_path ← required_str payload "blender_path"
  blender_version ← required_str payload "blender_version"
  stdout_log ← required_str payload "stdout_log"
  stderr_log ← required_str payload "stderr_log"
  state_dir ← required_str payload "state_dir"
  started_at ← required_str payload "started_at"
  owner_token ← required_str payload "owner_token"
  controller_pid ← required_int payload "controller_pid"
  controller_start_time ← required_str payload "controller_start_time"
  check (int_eq schema_version (pos 1)) "schema_version is unsupported"
  check (is_positive pid && is_positive controller_pid) "pid fields must be positive"
  check (between 1 65535 mcp_port) "mcp_port is outside the valid port range"
  scene_path ← optional_scene (get "scene_path" payload)
  recorded ← recorded_id sha256 (get "session_id" payload) owner_token
  session_id ← validate_session_id recorded
  ok (record {
    schema_version = schema_version;
    session_id = session_id;
    name = name;
    pid = pid;
    process_start_time = process_start_time;
    mcp_port = mcp_port;
    blender_path = blender_path;
    blender_version = blender_version;
    stdout_log = stdout_log;
    stderr_log = stderr_log;
    state_dir = state_dir;
    started_at = started_at;
    owner_token = owner_token;
    controller_pid = controller_pid;
    controller_start_time = controller_start_time;
    scene_path = scene_path;
  })

-- `_read_json`: a file whose JSON is no object is a `ValueError` too.
unfoldable pub read_json : File → Result Fields
read_json (bad m) = err (value_error m)
read_json (not_parsed m) = err (value_error m)
read_json (nested_too_deep m) = err (runtime_error m)
read_json (holds (obj payload)) = ok payload
read_json (holds other) = err (value_error "the file must contain a JSON object")

-- `except (OSError, ValueError, json.JSONDecodeError)` around the reads of a record or a marker
unfoldable pub is_record_failure : Error → Bool
is_record_failure (os_error m) = true
is_record_failure (timeout_error m) = true
is_record_failure (value_error m) = true
is_record_failure _ = false

unfoldable pub read_record : Digest → File → Result SessionRecord
read_record sha256 file = do payload ← read_json file; parse_record sha256 payload

-- What `_read_record` accepts.
pub record IsValidRecord (r : SessionRecord) : Type 0 where
  pub schema : int_eq r.schema_version (pos 1) ≡ true
  pub process : is_positive r.pid ≡ true
  pub controller : is_positive r.controller_pid ≡ true
  pub port : between 1 65535 r.mcp_port ≡ true
  pub identity : validate_session_id r.session_id ≡ ok r.session_id
