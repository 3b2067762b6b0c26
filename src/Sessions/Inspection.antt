-- ===== src/Sessions/Inspection.antt =====
-- `SessionInspection` of src/blendersessiond/sessions.py, and what can be said of a Session from
-- its record and its processes.
use blendersessiond.Base.{
  String, ◌<>◌, show, ℤ, pos, negsuc, suc, Bool, true, false, not, ◌&&◌, Option, none, some, str_eq,
  if◌then◌else◌,
}
use blendersessiond.Json.{Fields, get, File}
use blendersessiond.Exec.{Error, Result, ok, err, message}
use blendersessiond.Wire.Reply.{is_text}
use blendersessiond.Wire.Client.{HealthProbe}
use blendersessiond.Sessions.Record.{SessionRecord, read_json, is_record_failure}

pub data Status : Type 0 where
  not_found unreadable stale starting healthy unhealthy stopped : Status

abbrev pub is_healthy : Status → Bool
is_healthy healthy = true
is_healthy _ = false

unfoldable pub status_text : Status → String
status_text not_found = "not-found"
status_text unreadable = "unreadable"
status_text stale = "stale"
status_text starting = "starting"
status_text healthy = "healthy"
status_text unhealthy = "unhealthy"
status_text stopped = "stopped"

-- `unsaved_changes` is none for "unknown".
pub record SessionInspection : Type 0 where
  pub name : String
  pub status : Status
  pub message : String
  pub session : Option SessionRecord
  pub reclaimable : Bool
  pub stoppable : Bool
  pub process_alive : Bool
  pub socket_status : String
  pub socket_reason : String
  pub socket_message : String
  pub unsaved_changes : Option Bool

-- An inspection with the defaults of the fields behind `stoppable`.
abbrev pub basic : String → Status → String → Option SessionRecord → Bool → Bool → SessionInspection
basic name status text session reclaimable stoppable = record {
  name = name;
  status = status;
  message = text;
  session = session;
  reclaimable = reclaimable;
  stoppable = stoppable;
  process_alive = false;
  socket_status = "not-checked";
  socket_reason = "process-not-alive";
  socket_message = "Socket Health was not checked because the process is not alive.";
  unsaved_changes = none;
}

unfoldable pub not_found_inspection : String → SessionInspection
not_found_inspection name =
    basic name not_found ("Session '" <> name <> "' was not found.") none false false

unfoldable pub unreadable_inspection : String → Error → SessionInspection
unreadable_inspection name error =
    basic name unreadable
      ("Session '" <> name <> "' record is unreadable: " <> message error <> ".") none false false

abbrev pub show_int : ℤ → String
show_int (pos n) = show n
show_int (negsuc n) = "-" <> show (suc n)

absent_message : String → SessionRecord → String
absent_message name r =
    "Session '"
    <> name
    <> "' record is stale: pid "
    <> show_int r.pid
    <> " is absent or its process start time does not match."

-- What the files and the processes say, before the socket is asked.
pub data Assessment : Type 0 where
  settled : SessionInspection → Assessment
  ask_socket : Assessment

unfoldable pub token_in : Result Fields → String → Result Bool
token_in (ok fields) token = ok (is_text (get "token" fields) token)
token_in (err e) token = if is_record_failure e then ok false else err e

-- `ownership.get("token") == record.owner_token`; a marker that cannot be read has no token.
unfoldable pub token_matches : Option File → SessionRecord → Result Bool
unfolding token_in
token_matches none r = ok false
token_matches (some file) r = token_in (read_json file) r.owner_token

unfoldable pub stale_unless : String → SessionRecord → Bool → String → SessionInspection
unfolding absent_message
stale_unless name r tree_exists text =
    if not tree_exists
    then basic name stale (absent_message name r) (some r) true false
    else basic name stale text (some r) false false

unfoldable pub starting_inspection : String → SessionRecord → SessionInspection
starting_inspection name r = record {
  name = name;
  status = starting;
  message = "Session '" <> name <> "' launch is still in progress.";
  session = some r;
  reclaimable = false;
  stoppable = true;
  process_alive = true;
  socket_status = "not-checked";
  socket_reason = "launching";
  socket_message = "Socket Health was not checked while launch is in progress.";
  unsaved_changes = none;
}

unfoldable pub rootless : String → SessionRecord → Bool → SessionInspection
unfolding absent_message
rootless name r tree_exists =
    if tree_exists
    then basic name stale
        ("Session '" <> name
          <> "' Blender process is gone, but its owned process tree still exists.")
        (some r) false true
    else basic name stale (absent_message name r) (some r) true false

unfoldable pub assess : String → SessionRecord → Bool → Bool → Bool → Bool → Assessment
unfolding stale_unless starting_inspection rootless
assess name r launching token_ok root_matches tree_exists =
    if not (str_eq r.name name)
    then settled (
        stale_unless name r tree_exists
          ("Session '" <> name <> "' record has a mismatched Session Name."))
    else if not token_ok
    then settled (
        stale_unless name r tree_exists
          ("Session '" <> name <> "' record has no matching Ownership marker."))
    else if launching && tree_exists
    then settled (starting_inspection name r)
    else if not root_matches
    then settled (rootless name r tree_exists)
    else ask_socket

unfoldable pub probed : String → SessionRecord → HealthProbe → Option Bool → SessionInspection
probed name r probe unsaved =
    if probe.healthy
    then record {
      name = name;
      status = healthy;
      message = "Session '" <> name <> "' process is alive and its MCP addon socket answers.";
      session = some r;
      reclaimable = false;
      stoppable = true;
      process_alive = true;
      socket_status = "healthy";
      socket_reason = probe.reason;
      socket_message = probe.message;
      unsaved_changes = unsaved;
    }
    else record {
      name = name;
      status = unhealthy;
      message =
          "Session '" <> name <> "' process is alive, but its MCP addon socket is unhealthy: "
          <> probe.message;
      session = some r;
      reclaimable = false;
      stoppable = true;
      process_alive = true;
      socket_status = "unhealthy";
      socket_reason = probe.reason;
      socket_message = probe.message;
      unsaved_changes = unsaved;
    }
