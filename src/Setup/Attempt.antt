-- ===== src/Setup/Attempt.antt =====
-- The directory of one Setup Attempt, and `_guard_setup_path`, `_setup_lock`,
-- `_read_optional_record`, `_write_create_once`, `_touch_create_once` and `_marker_exists` of
-- src/blendersessiond/setup_owner.py. A missing directory is an empty one. Several processes work
-- in it: while this one holds no lock, the others may run at every step.
use blendersessiond.Base.{
  ℕ, ℤ, String, ◌<>◌, Bool, true, false, Option, none, some, List, [], ◌∷◌, ltb, length, str_eq,
  if◌then◌else◌,
}
use blendersessiond.Json.{Json, obj, Fields, get}
use blendersessiond.Exec.{
  World, Error, Result, ok, err, M, os_error, timeout_error, setup_error, Lock, setup_lock, pure,
  throw, lift, system, reads, writes, catch, file_lock, ◌>>=◌, ◌>>◌,
}
use blendersessiond.Processes.Kernel.{Kernel}
use blendersessiond.Processes.Tree.{is_windows}
use blendersessiond.Sessions.Launch.{Spawned}
use blendersessiond.Setup.Codec.{Codec, strict_json, encode_record, max_record_bytes}
use blendersessiond.Setup.Parse.{is_schema_one}

pub record Attempt : Type 0 where
  pub request : Option (List ℕ)
  pub launch_receipt : Option (List ℕ)
  pub terminal : Option (List ℕ)
  pub dispatch : Bool
  pub stop : Bool

-- The attempts by their identities.
abbrev pub Attempts : Type 0
Attempts = String → Attempt

pub data RecordName : Type 0 where
  request_json launch_receipt_json terminal_json : RecordName

abbrev pub record_name : RecordName → String
record_name request_json = "request.json"
record_name launch_receipt_json = "launch-receipt.json"
record_name terminal_json = "terminal.json"

abbrev pub content_of : RecordName → Attempt → Option (List ℕ)
content_of request_json a = a.request
content_of launch_receipt_json a = a.launch_receipt
content_of terminal_json a = a.terminal

abbrev pub with_content : RecordName → List ℕ → Attempt → Attempt
with_content request_json bytes a = record a { request = some bytes }
with_content launch_receipt_json bytes a = record a { launch_receipt = some bytes }
with_content terminal_json bytes a = record a { terminal = some bytes }

pub data Marker : Type 0 where
  dispatch_marker stop_marker : Marker

abbrev pub is_marked : Marker → Attempt → Bool
is_marked dispatch_marker a = a.dispatch
is_marked stop_marker a = a.stop

abbrev pub with_marker : Marker → Attempt → Attempt
with_marker dispatch_marker a = record a { dispatch = true }
with_marker stop_marker a = record a { stop = true }

unfoldable pub change_at : String → (Attempt → Attempt) → Attempts → Attempts
change_at id f attempts i = if str_eq i id then f (attempts i) else attempts i

-- What `OpenProcess` and the calls on its handle give.
pub data Opened : Type 0 where
  opened invalid_parameter open_refused : Opened

pub data Waited : Type 0 where
  object_signalled wait_timeout wait_failed : Waited

-- The system as the setup owner meets it. `guard_path` is the error of the path authority, if it has
-- one; `storage` the error of a write; `others` what the other processes do meanwhile.
pub record SetupHost (S : Type 0) : Type 0 where
  pub kernel : Kernel S
  pub codec : Codec
  pub system_name : String
  pub guard_path : S → Option String × S
  pub storage : S → Option String × S
  pub utc_now : S → ℕ × S
  pub others : Attempts → S → Attempts × S
  pub spawn_keeper : String → S → Spawned × S
  pub open_process : ℤ → S → Opened × S
  pub creation_filetime : ℤ → S → Option ℕ × S
  pub wait_process : ℤ → S → Waited × S
  pub terminate_process : ℤ → S → Option String × S

abbrev pub holds_none : List Lock → Bool
holds_none [] = true
holds_none (l ∷ ls) = false

module _ {S : Type 0} (h : SetupHost S) where
  -- The others run, unless this process holds the lock that they take too.
  abbrev pub meanwhile : Bool → World S Attempts → World S Attempts
  meanwhile false w = w
  meanwhile true w = record w { disk = (h.others w.disk w.os).0; os = (h.others w.disk w.os).1 }

  unfoldable pub interleave : M S Attempts Unit
  interleave w = (ok tt, meanwhile (holds_none w.held) w)

  module _ {A : Type 0} where
    -- `except (OSError, PathAuthorityError) as error: raise SetupOwnerError(str(error))`
    unfoldable pub as_setup_error : Error → M S Attempts A
    as_setup_error (os_error m) = throw (setup_error m)
    as_setup_error (timeout_error m) = throw (setup_error m)
    as_setup_error other = throw other

    unfoldable pub guarded_by : Option String → M S Attempts A → M S Attempts A
    guarded_by none body = catch body as_setup_error
    guarded_by (some m) body = throw (setup_error m)

    unfoldable pub guarded : M S Attempts A → M S Attempts A
    unfolding guarded_by
    guarded body =
        if is_windows h.kernel.platform
        then (do refused ← system h.guard_path; guarded_by refused body)
        else body

    -- `with _setup_lock(directory): body`
    unfoldable pub with_setup_lock : String → M S Attempts A → M S Attempts A
    with_setup_lock id body = guarded (do interleave; file_lock (setup_lock id) body)

  abbrev object_record : RecordName → Json → Result (Option Fields)
  object_record name (obj payload) =
      if is_schema_one (get "schema_version" payload)
      then ok (some payload)
      else err (setup_error ("Setup record is incompatible: " <> record_name name <> "."))
  object_record name other =
      err (setup_error ("Setup record is incompatible: " <> record_name name <> "."))

  abbrev json_record : RecordName → Option Json → Result (Option Fields)
  json_record name none = err (setup_error ("Setup record is invalid: " <> record_name name <> "."))
  json_record name (some v) = object_record name v

  -- What the bytes of a record file stand for.
  unfoldable pub record_payload : RecordName → Option (List ℕ) → Result (Option Fields)
  record_payload name none = ok none
  record_payload name (some bytes) =
      if ltb max_record_bytes (length bytes)
      then err (setup_error ("Setup record is too large: " <> record_name name <> "."))
      else json_record name (strict_json h.codec bytes)

  unfoldable pub read_optional_record : String → RecordName → M S Attempts (Option Fields)
  read_optional_record id name = do
    content ← guarded (do interleave; reads (λ attempts. content_of name (attempts id)))
    lift (record_payload name content)

  unfoldable pub marker_exists : String → Marker → M S Attempts Bool
  marker_exists id marker =
      guarded (do interleave; reads (λ attempts. is_marked marker (attempts id)))

  abbrev pub stored_or : Option String → M S Attempts Unit
  stored_or none = pure tt
  stored_or (some m) = throw (os_error m)

  -- A file that exists is never replaced.
  abbrev pub publish_if_new : String → RecordName → List ℕ → Option (List ℕ) → M S Attempts Unit
  publish_if_new id name bytes none = writes (change_at id (with_content name bytes))
  publish_if_new id name bytes (some old) = throw (os_error (record_name name <> " exists"))

  unfoldable pub write_create_once : String → RecordName → Fields → M S Attempts Unit
  unfolding change_at
  write_create_once id name payload = guarded (do
    bytes ← lift (encode_record h.codec payload)
    trouble ← system h.storage
    stored_or trouble
    old ← reads (λ attempts. content_of name (attempts id))
    publish_if_new id name bytes old)

  abbrev pub mark_if_new : String → Marker → Bool → M S Attempts Bool
  mark_if_new id marker true = pure false
  mark_if_new id marker false = do writes (change_at id (with_marker marker)); pure true

  unfoldable pub touch_create_once : String → Marker → M S Attempts Bool
  unfolding change_at
  touch_create_once id marker = guarded (do
    trouble ← system h.storage
    stored_or trouble
    there ← reads (λ attempts. is_marked marker (attempts id))
    mark_if_new id marker there)
