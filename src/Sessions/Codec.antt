-- ===== src/Sessions/Codec.antt =====
-- Records survive being written and read, and what is read is well formed.
use blendersessiond.Base.{
  pos, String, ◌≡◌, refl, Bool, true, false, Option, none, some, is_positive, between, int_eq,
  &&-true, ◌&&◌, arith,
}
use blendersessiond.Json.{obj, Fields, get, File, holds}
use blendersessiond.Exec.{Result, ok}
use blendersessiond.Exec.Ensures.{Ensures, Ensures-bind, Ensures-ok}
use blendersessiond.Sessions.Name.{validate_session_id}
use blendersessiond.Sessions.Record.{
  SessionRecord, as_dict, Digest, parse_record, read_json, read_record, IsValidRecord, required_str,
  required_int, check, optional_scene, recorded_id, or_none, ◌>>◌,
}

optional_scene-or_none : (o : Option String) → optional_scene (some (or_none o)) ≡ ok o
unfolding optional_scene
optional_scene-or_none none = refl
optional_scene-or_none (some s) = refl

-- A record that is written and read again is the same record, if it is well formed.
pub read_record-as_dict :
    (sha256 : Digest) (r : SessionRecord)
    → IsValidRecord r
    → read_record sha256 (holds (obj (as_dict r))) ≡ ok r
unfolding read_record read_json parse_record as_dict get
read_record-as_dict sha256 r h = rw (
  h.schema,
  h.process,
  h.controller,
  h.port,
  optional_scene-or_none r.scene_path,
  recorded_id,
  h.identity,
)

Ensures-check :
    {B : Type 0} {P : B → Type 0} (b : Bool) (m : String) (next : Result B)
    → (b ≡ true → Ensures P next)
    → Ensures P (check b m >> next)
Ensures-check true m next h b eq = h refl b eq
Ensures-check false m next h b eq = cc

valid_id : (s : String) (t : String) → validate_session_id s ≡ ok t → validate_session_id t ≡ ok t
unfolding validate_session_id
valid_id s t h = ground arith

parse_record-IsValidRecord :
    (sha256 : Digest) (payload : Fields) → Ensures IsValidRecord (parse_record sha256 payload)
unfolding parse_record
parse_record-IsValidRecord sha256 payload =
    Ensures-bind (required_int payload "schema_version") _ λ schema_version _.
      Ensures-bind (required_str payload "name") _ λ _ _.
        Ensures-bind (required_int payload "pid") _ λ pid _.
          Ensures-bind (required_str payload "process_start_time") _ λ _ _.
            Ensures-bind (required_int payload "mcp_port") _ λ mcp_port _.
              Ensures-bind (required_str payload "blender_path") _ λ _ _.
                Ensures-bind (required_str payload "blender_version") _ λ _ _.
                  Ensures-bind (required_str payload "stdout_log") _ λ _ _.
                    Ensures-bind (required_str payload "stderr_log") _ λ _ _.
                      Ensures-bind (required_str payload "state_dir") _ λ _ _.
                        Ensures-bind (required_str payload "started_at") _ λ _ _.
                          Ensures-bind (required_str payload "owner_token") _ λ owner_token _.
                            Ensures-bind (required_int payload "controller_pid") _
                              λ controller_pid _.
                                Ensures-bind (required_str payload "controller_start_time") _ λ _ _.
                                  Ensures-check (int_eq schema_version (pos 1)) _ _ λ schema.
                                    Ensures-check (is_positive pid && is_positive controller_pid) _
                                      _
                                      λ pids. Ensures-check (between 1 65535 mcp_port) _ _ λ port.
                                        Ensures-bind (optional_scene (get "scene_path" payload)) _
                                          λ _ _.
                                            Ensures-bind
                                              (recorded_id sha256 (get "session_id" payload)
                                                owner_token)
                                              _
                                              λ recorded _.
                                                Ensures-bind (validate_session_id recorded) _
                                                  λ identity valid.
                                                    Ensures-ok IsValidRecord _ (record {
                                                      schema = schema;
                                                      process =
                                                          (&&-true (is_positive pid)
                                                            (is_positive controller_pid) pids).0;
                                                      controller =
                                                          (&&-true (is_positive pid)
                                                            (is_positive controller_pid) pids).1;
                                                      port = port;
                                                      identity = valid_id recorded identity valid;
                                                    })

-- What is read from a file is well formed, whatever the file holds.
pub read_record-IsValidRecord :
    (sha256 : Digest) (file : File) (r : SessionRecord)
    → read_record sha256 file ≡ ok r
    → IsValidRecord r
unfolding read_record
read_record-IsValidRecord sha256 file r h =
    Ensures-bind (read_json file) (parse_record sha256)
      (λ payload _. parse_record-IsValidRecord sha256 payload) r h
