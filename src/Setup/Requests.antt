-- ===== src/Setup/Requests.antt =====
-- The requests that `_parse_request` of src/blendersessiond/setup_owner.py accepts, and their records.
use text.Mathlib.TextPositions.{eq_refl}
use blendersessiond.Base.{
  ◌≡◌, refl, arith, ℕ, ◌≤◌, ℤ, between, int_eq_iff, String, ◌<>◌, Bool, true, false, not, ◌||◌,
  Option, some, List, ◌==◌, ltb, length,
}
use blendersessiond.Json.{Json, int, str, Fields, get}
use blendersessiond.Json.Equal.{dict_eq, json_eq, size}
use blendersessiond.Json.Strict.{keys}
use blendersessiond.Exec.{Error, Result, ok, setup_error}
use blendersessiond.Exec.Ensures.{Ensures, Ensures-bind, Ensures-ok}
use blendersessiond.Sessions.Record.{◌>>◌}
use blendersessiond.Setup.Codec.{
  Codec, strict_json, parse_time, validate_attempt_id, validate_launch_id, validate_sha256,
  max_request_bytes, max_script_bytes, operation_revision, format_time,
}
use blendersessiond.Setup.Records.{SetupRequest, request_dict}
use blendersessiond.Setup.Parse.{
  require, without_names, no_names, request_keys, script_keys, is_schema_one, is_string, found_or,
  as_object, same_names, as_size, parse_script, request_object, parse_payload, parse_request,
  stored_request, request_from_record,
}
use blendersessiond.Setup.Times.{CodecLaws, parse_time-format_time, validate_sha256-sha256}

-- A request with exact identities, a script of 1 to 128 KiB that is named after the attempt, and the
-- one revision.
pub record IsValidRequest (r : SetupRequest) : Type 0 where
  pub attempt : validate_attempt_id (str r.attempt_id) ≡ ok r.attempt_id
  pub launch : validate_launch_id (str r.launch_id) ≡ ok r.launch_id
  pub revision : r.operation_revision ≡ operation_revision
  pub artifact : r.script.artifact_id ≡ r.attempt_id <> ".ps1"
  pub size : between 1 max_script_bytes r.script.size ≡ true
  pub script_sha : validate_sha256 (str r.script.sha256) ≡ ok r.script.sha256

-- A request of 1 to 16384 bytes, with their digest.
pub record IsParsed (c : Codec) (raw : List ℕ) (r : SetupRequest) : Type 0 where
  pub lower : 1 ≤ length raw
  pub upper : length raw ≤ max_request_bytes
  pub digest : r.request_sha256 ≡ c.sha256 raw
  pub valid : IsValidRequest r

Ensures-require :
    {B : Type 0} {P : B → Type 0} (b : Bool) (m : String) (next : Result B)
    → (b ≡ true → Ensures P next)
    → Ensures P (require b m >> next)
Ensures-require true m next h b eq = h refl b eq
Ensures-require false m next h b eq = cc

abbrev absent : Error
absent = setup_error "missing"

abbrev inexact : Error
inexact = setup_error "Setup launch script must contain exact artifact fields."

attempt_id-valid :
    (v : Json) (s : String) → validate_attempt_id v ≡ ok s → validate_attempt_id (str s) ≡ ok s
unfolding validate_attempt_id
attempt_id-valid (str t) s h = ground arith
attempt_id-valid _ s h = cc

launch_id-valid :
    (v : Json) (s : String) → validate_launch_id v ≡ ok s → validate_launch_id (str s) ≡ ok s
unfolding validate_launch_id
launch_id-valid (str t) s h = ground arith
launch_id-valid _ s h = cc

sha256-valid : (v : Json) (s : String) → validate_sha256 v ≡ ok s → validate_sha256 (str s) ≡ ok s
unfolding validate_sha256
sha256-valid (str t) s h = ground arith
sha256-valid _ s h = cc

size-valid :
    (e : Error) (v : Option Json) (z : ℤ) → as_size e v ≡ ok z → between 1 max_script_bytes z ≡ true
size-valid e (some (int y)) z h = ground arith
size-valid e _ z h = cc

module _ (c : Codec) where
  -- The part behind the script's object.
  script-IsParsed :
      (raw : List ℕ) (attempt_id launch_id : String) (deadline : ℕ) (script : Fields)
      → 1 ≤ length raw
      → length raw ≤ max_request_bytes
      → validate_attempt_id (str attempt_id) ≡ ok attempt_id
      → validate_launch_id (str launch_id) ≡ ok launch_id
      → Ensures (IsParsed c raw) (parse_script c raw attempt_id launch_id deadline script)
  unfolding parse_script
  script-IsParsed raw attempt_id launch_id deadline script lower upper attempt launch =
      Ensures-require (same_names script script_keys) _ _ λ _.
        Ensures-require (is_string (get "artifact_id" script) (attempt_id <> ".ps1")) _ _ λ _.
          Ensures-bind
            (as_size (setup_error "Setup script size must be 1-128 KiB.") (get "size" script)) _
            λ size sized. Ensures-bind (found_or absent (get "sha256" script)) _ λ sha_value _.
              Ensures-bind (validate_sha256 sha_value) _ λ sha256 digest.
                Ensures-ok (IsParsed c raw) _ (record {
                  lower = lower;
                  upper = upper;
                  digest = refl;
                  valid = record {
                    attempt = attempt;
                    launch = launch;
                    revision = refl;
                    artifact = refl;
                    size = size-valid _ (get "size" script) size sized;
                    script_sha = sha256-valid sha_value sha256 digest;
                  };
                })

  payload-IsParsed :
      (raw : List ℕ) (payload : Fields)
      → 1 ≤ length raw
      → length raw ≤ max_request_bytes
      → Ensures (IsParsed c raw) (parse_payload c raw payload)
  unfolding parse_payload
  payload-IsParsed raw payload lower upper =
      Ensures-require (no_names (without_names (keys payload) request_keys)) _ _ λ _.
        Ensures-require (no_names (without_names request_keys (keys payload))) _ _ λ _.
          Ensures-require (is_schema_one (get "schema_version" payload)) _ _ λ _.
            Ensures-bind (found_or absent (get "attempt_id" payload)) _ λ attempt_value _.
              Ensures-bind (validate_attempt_id attempt_value) _ λ attempt_id attempt.
                Ensures-bind (found_or absent (get "launch_id" payload)) _ λ launch_value _.
                  Ensures-bind (validate_launch_id launch_value) _ λ launch_id launch.
                    Ensures-require
                      (is_string (get "operation_revision" payload) operation_revision) _ _
                      λ _.
                        Ensures-bind (found_or absent (get "deadline_utc" payload)) _
                          λ deadline_value _.
                            Ensures-bind (parse_time c deadline_value "deadline_utc") _
                              λ deadline _.
                                Ensures-bind (as_object inexact (get "script" payload)) _
                                  λ script _.
                                    script-IsParsed raw attempt_id launch_id deadline script lower
                                      upper (attempt_id-valid attempt_value attempt_id attempt)
                                      (launch_id-valid launch_value launch_id launch)

  -- Bytes that parse as a request are 1 to 16384; the request has exact identities, a script of 1 to
  -- 131072 bytes named after the attempt, the one revision, and the digest of the bytes.
  pub parse_request-IsParsed :
      (raw : List ℕ) (r : SetupRequest) → parse_request c raw ≡ ok r → IsParsed c raw r
  unfolding parse_request
  parse_request-IsParsed raw r h =
      Ensures-require _ _ _
        (λ bounded.
          Ensures-bind (request_object c (strict_json c raw)) (parse_payload c raw) (λ payload _.
            payload-IsParsed raw payload (not_empty (length raw) bounded)
              (not_longer (length raw) bounded)))
        r h
    where
      not_empty : (n : ℕ) → not (n == 0 || ltb max_request_bytes n) ≡ true → 1 ≤ n
      not_empty n h = ground arith

      not_longer : (n : ℕ) → not (n == 0 || ltb max_request_bytes n) ≡ true → n ≤ max_request_bytes
      not_longer n h = ground arith

  module _ (laws : CodecLaws c) where
    stored_request-request_dict :
        (r : SetupRequest)
        → IsValidRequest r
        → validate_sha256 (str r.request_sha256) ≡ ok r.request_sha256
        → stored_request c (request_dict c r) ≡ ok r
    unfolding stored_request request_dict get same_names without_names keys
    stored_request-request_dict r v digest = rw (
      v.attempt,
      v.size,
      v.artifact,
      eq_refl (r.attempt_id <> ".ps1"),
      v.launch,
      parse_time-format_time c laws,
      v.script_sha,
      digest,
      v.revision,
    )

    request_dict-dict_eq : (r : SetupRequest) → dict_eq (request_dict c r) (request_dict c r) ≡ true
    unfolding dict_eq json_eq request_dict get size
    request_dict-dict_eq r = rw (
      eq_refl r.attempt_id,
      eq_refl r.launch_id,
      eq_refl (format_time c r.deadline_utc),
      eq_refl r.script.artifact_id,
      (int_eq_iff r.script.size r.script.size).1 refl,
      eq_refl r.script.sha256,
      eq_refl r.request_sha256,
    )

    -- A request that bytes parse as is read back from the record that is written of it, where times
    -- and digests have the format that the standard library documents.
    pub request_from_record-request_dict :
        (raw : List ℕ) (r : SetupRequest)
        → parse_request c raw ≡ ok r
        → request_from_record c (request_dict c r) ≡ ok r
    unfolding request_from_record
    request_from_record-request_dict raw r h =
        let parsed = parse_request-IsParsed raw r h in
        rw (
          stored_request-request_dict r parsed.valid
              (rw (parsed.digest) (validate_sha256-sha256 c laws raw)),
          request_dict-dict_eq r,
        )
