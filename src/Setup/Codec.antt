-- ===== src/Setup/Codec.antt =====
-- What src/blendersessiond/setup_owner.py uses of `json`, `hashlib` and `datetime`, and its own
-- `_strict_json`, `_encode_record`, `_parse_time`, `_format_time` and validations of identities.
-- A time is a number of microseconds.
use blendersessiond.Base.{
  ℕ, String, ◌<>◌, Bool, false, ◌&&◌, Option, none, some, List, [], ◌∷◌, ◌==◌, ltb, codes, all,
  length, is_lower_hex, if◌then◌else◌,
}
use blendersessiond.Json.{Json, str, obj, Fields}
use blendersessiond.Json.Strict.{is_strict}
use blendersessiond.Exec.{Result, ok, err, setup_error}
use blendersessiond.Wire.Utf8.{Decoded, text, decode}
use blendersessiond.Sessions.Name.{behind, url_safe_between}

-- `loads` keeps a key that stands twice; `dumps` gives the bytes of the canonical form with its
-- line feed; `isoformat` is the text in front of the offset of UTC.
pub record Codec : Type 0 where
  pub loads : List ℕ → Option Json
  pub dumps : Json → List ℕ
  pub sha256 : List ℕ → String
  pub isoformat : ℕ → String
  pub fromisoformat : String → Option ℕ
  pub sorted_repr : List String → String

abbrev pub max_request_bytes : ℕ
max_request_bytes = 16384

abbrev pub max_script_bytes : ℕ
max_script_bytes = 131072

abbrev pub max_record_bytes : ℕ
max_record_bytes = 262144

abbrev pub max_output_bytes : ℕ
max_output_bytes = 24576

abbrev pub max_deadline : ℕ
max_deadline = 300000000

abbrev pub operation_revision : String
operation_revision = "windows-setup-owner-v1"

abbrev starts_with_bom : List ℕ → Bool
starts_with_bom [] = false
starts_with_bom (c ∷ cs) = c == 0xFEFF

-- The part of a text in front of a final `Z`.
abbrev pub in_front_of_z : List ℕ → Bool
in_front_of_z [] = false
in_front_of_z (c ∷ []) = c == b'Z'
in_front_of_z (c ∷ d ∷ cs) = in_front_of_z (d ∷ cs)

unfoldable pub without_last : String → String
without_last String.[] = ""
without_last (String.◌∷◌ c String.[]) = ""
without_last (String.◌∷◌ c (String.◌∷◌ d s)) = String.◌∷◌ c (without_last (String.◌∷◌ d s))

module _ (c : Codec) where
  strict_value : Option Json → Option Json
  strict_value none = none
  strict_value (some v) = if is_strict v then some v else none

  strict_text : Decoded → Option Json
  unfolding strict_value
  strict_text (text cs) = if starts_with_bom cs then none else strict_value (c.loads cs)
  strict_text _ = none

  -- `none` is a `ValueError`, of which the decode errors are subclasses.
  unfoldable pub strict_json : List ℕ → Option Json
  unfolding strict_text strict_value
  strict_json encoded = strict_text (decode encoded)

  unfoldable pub encode_record : Fields → Result (List ℕ)
  encode_record payload =
      if ltb max_record_bytes (length (c.dumps (obj payload)))
      then err (setup_error "Setup record exceeds its size limit.")
      else ok (c.dumps (obj payload))

  parsed_time : String → Option ℕ → Result ℕ
  parsed_time field none = err (setup_error ("Setup " <> field <> " is invalid."))
  parsed_time field (some t) = ok t

  unfoldable pub parse_time : Json → String → Result ℕ
  unfolding parsed_time
  parse_time (str value) field =
      if in_front_of_z (codes value)
      then parsed_time field (c.fromisoformat (without_last value <> "+00:00"))
      else err (setup_error ("Setup " <> field <> " must be a UTC timestamp."))
  parse_time _ field = err (setup_error ("Setup " <> field <> " must be a UTC timestamp."))

  unfoldable pub format_time : ℕ → String
  format_time t = c.isoformat t <> "Z"

-- `^bbsa_[A-Za-z0-9_-]{43}$`
unfoldable pub validate_attempt_id : Json → Result String
unfolding behind
validate_attempt_id (str value) =
    if url_safe_between 43 43 (behind (codes "bbsa_") (codes value))
    then ok value
    else err (setup_error "Attempt ID is invalid.")
validate_attempt_id _ = err (setup_error "Attempt ID is invalid.")

-- `^bbsl_[A-Za-z0-9_-]{43}$`
unfoldable pub validate_launch_id : Json → Result String
unfolding behind
validate_launch_id (str value) =
    if url_safe_between 43 43 (behind (codes "bbsl_") (codes value))
    then ok value
    else err (setup_error "Launch ID is invalid.")
validate_launch_id _ = err (setup_error "Launch ID is invalid.")

-- `^[0-9a-f]{64}$`
unfoldable pub validate_sha256 : Json → Result String
validate_sha256 (str value) =
    if all is_lower_hex (codes value) && length (codes value) == 64
    then ok value
    else err (setup_error "SHA-256 is invalid.")
validate_sha256 _ = err (setup_error "SHA-256 is invalid.")
