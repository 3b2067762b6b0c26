-- ===== src/Setup/Parse.antt =====
-- `_parse_request` and `_request_from_record` of src/blendersessiond/setup_owner.py.
use blendersessiond.Base.{
  ℕ, ℤ, pos, between, int_eq, String, ◌<>◌, Bool, true, false, not, ◌&&◌, ◌||◌, Option, none, some,
  List, [], ◌∷◌, ◌==◌, ltb, length, str_in, if◌then◌else◌, str_eq,
}
use blendersessiond.Json.{Json, int, str, obj, Fields, get}
use blendersessiond.Json.Strict.{keys}
use blendersessiond.Json.Equal.{dict_eq}
use blendersessiond.Exec.{Error, Result, ok, err, setup_error}
use blendersessiond.Sessions.Record.{◌>>=◌, ◌>>◌}
use blendersessiond.Setup.Codec.{
  Codec, strict_json, parse_time, validate_attempt_id, validate_launch_id, validate_sha256,
  max_request_bytes, max_script_bytes, operation_revision,
}
use blendersessiond.Setup.Records.{SetupRequest, request_dict}

abbrev pub require : Bool → String → Result (Unit {0})
require true m = ok tt
require false m = err (setup_error m)

unfoldable pub has_key : List String → String → Bool
has_key ks k = str_in k ks

unfoldable pub without_names : List String → List String → List String
without_names [] others = []
without_names (k ∷ ks) others =
    let rest = without_names ks others in if str_in k others then rest else k ∷ rest

-- `value == text` for a value of any type
abbrev pub is_string : Option Json → String → Bool
is_string (some (str s)) text = str_eq s text
is_string _ text = false

abbrev pub is_schema_one : Option Json → Bool
is_schema_one (some (int z)) = int_eq z (pos 1)
is_schema_one _ = false

abbrev pub found_or : Error → Option Json → Result Json
found_or e none = err e
found_or e (some v) = ok v

abbrev pub no_names : List String → Bool
no_names [] = true
no_names (k ∷ ks) = false

abbrev pub as_object : Error → Option Json → Result Fields
as_object e (some (obj fields)) = ok fields
as_object e _ = err e

abbrev pub as_size : Error → Option Json → Result ℤ
as_size e (some (int z)) = if between 1 max_script_bytes z then ok z else err e
as_size e _ = err e

abbrev pub request_keys : List String
request_keys =
    "schema_version" ∷ "attempt_id" ∷ "launch_id" ∷ "deadline_utc" ∷ "operation_revision" ∷ "script"
    ∷ []

abbrev pub script_keys : List String
script_keys = "artifact_id" ∷ "size" ∷ "sha256" ∷ []

-- `set(fields) == set(names)`
unfoldable pub same_names : Fields → List String → Bool
same_names fields names =
    no_names (without_names (keys fields) names) && no_names (without_names names (keys fields))

module _ (c : Codec) where
  -- `json.loads` of the raw bytes, and that they are an object.
  unfoldable pub request_object : Option Json → Result Fields
  request_object none = err (setup_error "Setup launch request is not valid UTF-8 JSON.")
  request_object (some (obj payload)) = ok payload
  request_object (some v) = err (setup_error "Setup launch request must be a JSON object.")

  -- The checks of the script artifact, the last ones.
  unfoldable pub parse_script : List ℕ → String → String → ℕ → Fields → Result SetupRequest
  parse_script raw attempt_id launch_id deadline script = do
    let absent = setup_error "missing"
    require (same_names script script_keys)
        "Setup launch script must contain exact artifact fields."
    require (is_string (get "artifact_id" script) (attempt_id <> ".ps1"))
        "Setup script artifact_id must derive from the Attempt ID."
    size ← as_size (setup_error "Setup script size must be 1-128 KiB.") (get "size" script)
    sha_value ← found_or absent (get "sha256" script)
    sha256 ← validate_sha256 sha_value
    ok (record {
      attempt_id = attempt_id;
      launch_id = launch_id;
      deadline_utc = deadline;
      operation_revision = operation_revision;
      script = record { artifact_id = attempt_id <> ".ps1"; size = size; sha256 = sha256 };
      request_sha256 = c.sha256 raw;
    })

  unfoldable pub parse_payload : List ℕ → Fields → Result SetupRequest
  unfolding parse_script
  parse_payload raw payload = do
    let unknown = without_names (keys payload) request_keys
    let missing = without_names request_keys (keys payload)
    require (no_names unknown)
        ("Setup launch request contains unknown keys: " <> c.sorted_repr unknown <> ".")
    require (no_names missing)
        ("Setup launch request is missing keys: " <> c.sorted_repr missing <> ".")
    require (is_schema_one (get "schema_version" payload))
        "Setup launch request schema_version must be 1."
    let absent = setup_error "missing"
    attempt_value ← found_or absent (get "attempt_id" payload)
    attempt_id ← validate_attempt_id attempt_value
    launch_value ← found_or absent (get "launch_id" payload)
    launch_id ← validate_launch_id launch_value
    require (is_string (get "operation_revision" payload) operation_revision)
        ("Setup launch operation_revision must be " <> operation_revision <> ".")
    deadline_value ← found_or absent (get "deadline_utc" payload)
    deadline ← parse_time c deadline_value "deadline_utc"
    let inexact = setup_error "Setup launch script must contain exact artifact fields."
    script ← as_object inexact (get "script" payload)
    parse_script raw attempt_id launch_id deadline script

  unfoldable pub parse_request : List ℕ → Result SetupRequest
  unfolding request_object parse_payload
  parse_request raw = do
    require (not (length raw == 0 || ltb max_request_bytes (length raw)))
        "Setup launch request must be 1-16 KiB."
    payload ← request_object (strict_json c raw)
    parse_payload raw payload

  -- The `try` block; every failure in it becomes the same error.
  unfoldable pub stored_request : Fields → Result SetupRequest
  stored_request payload = do
    let absent = setup_error "missing"
    require (is_schema_one (get "schema_version" payload)) "Setup request record schema is invalid."
    attempt_value ← found_or absent (get "attempt_id" payload)
    attempt_id ← validate_attempt_id attempt_value
    script ←
        as_object (setup_error "Setup request record script is invalid.") (get "script" payload)
    require (same_names script script_keys) "Setup request record script is invalid."
    size ← as_size (setup_error "Setup request record script size is invalid.") (get "size" script)
    require (is_string (get "artifact_id" script) (attempt_id <> ".ps1"))
        "Setup request record artifact is invalid."
    require (is_string (get "operation_revision" payload) operation_revision)
        "Setup request record revision is invalid."
    launch_value ← found_or absent (get "launch_id" payload)
    launch_id ← validate_launch_id launch_value
    deadline_value ← found_or absent (get "deadline_utc" payload)
    deadline ← parse_time c deadline_value "deadline_utc"
    sha_value ← found_or absent (get "sha256" script)
    sha256 ← validate_sha256 sha_value
    request_value ← found_or absent (get "request_sha256" payload)
    request_sha256 ← validate_sha256 request_value
    ok (record {
      attempt_id = attempt_id;
      launch_id = launch_id;
      deadline_utc = deadline;
      operation_revision = operation_revision;
      script = record { artifact_id = attempt_id <> ".ps1"; size = size; sha256 = sha256 };
      request_sha256 = request_sha256;
    })

  abbrev pub exact_request : Fields → Result SetupRequest → Result SetupRequest
  exact_request payload (err e) = err (setup_error "Setup request record is invalid.")
  exact_request payload (ok request) =
      if dict_eq payload (request_dict c request)
      then ok request
      else err (setup_error "Setup request record contains unexpected fields.")

  unfoldable pub request_from_record : Fields → Result SetupRequest
  unfolding stored_request
  request_from_record payload = exact_request payload (stored_request payload)
