-- ===== src/Sessions/Unreadable.antt =====
-- With what a read of a record or of a marker in src/blendersessiond/sessions.py fails: an `OSError`,
-- a `ValueError`, or the `RecursionError` of its JSON.
use blendersessiond.Base.{arith, String, Bool, true, false, Option, none, some}
use blendersessiond.Json.{Json, Fields, File}
use blendersessiond.Exec.{Error, Result, ok, err, os_error, value_error, runtime_error}
use blendersessiond.Exec.Raises.{Allowed}
use blendersessiond.Sessions.Name.{validate_session_id}
use blendersessiond.Sessions.Record.{
  SessionRecord, Digest, parse_record, read_json, read_record, required_str, required_int, check,
  optional_scene, recorded_id, is_record_failure, ◌>>=◌,
}
use blendersessiond.Sessions.Disk.{RecordFile, nothing, found}
use blendersessiond.Sessions.Fence.{current_record}
use blendersessiond.Sessions.Inspection.{token_matches, token_in}

abbrev pub IsReadError : Error → Type 0
IsReadError (os_error _) = Unit
IsReadError (value_error _) = Unit
IsReadError (runtime_error _) = Unit
IsReadError _ = ⊥

abbrev Reads : {A : Type 0} → Result A → Type 0
Reads r = Allowed IsReadError r

then_Reads :
    {A B : Type 0} (m : Result A) (f : A → Result B)
    → Reads m
    → ((a : A) → Reads (f a))
    → Reads (m >>= f)
then_Reads (ok a) f h k = k a
then_Reads (err e) f h k = h

str-Reads : (payload : Fields) (key : String) → Reads (required_str payload key)
unfolding required_str
str-Reads payload key = ground arith

int-Reads : (payload : Fields) (key : String) → Reads (required_int payload key)
unfolding required_int
int-Reads payload key = ground arith

check-Reads : (b : Bool) (m : String) → Reads (check b m)
check-Reads true m = tt
check-Reads false m = tt

scene-Reads : (v : Option Json) → Reads (optional_scene v)
unfolding optional_scene
scene-Reads v = ground arith

id-Reads : (sha256 : Digest) (v : Option Json) (token : String) → Reads (recorded_id sha256 v token)
unfolding recorded_id
id-Reads sha256 v token = ground arith

valid-Reads : (s : String) → Reads (validate_session_id s)
unfolding validate_session_id
valid-Reads s = ground arith

json-Reads : (file : File) → Reads (read_json file)
unfolding read_json
json-Reads file = ground arith

parse_record-Reads : (sha256 : Digest) (payload : Fields) → Reads (parse_record sha256 payload)
unfolding parse_record
parse_record-Reads sha256 payload =
    search (then_Reads, int-Reads, str-Reads, check-Reads, scene-Reads, id-Reads, valid-Reads) depth
      45

pub read_record-Allowed :
    (sha256 : Digest) (file : File) → Allowed IsReadError (read_record sha256 file)
unfolding read_record
read_record-Allowed sha256 file =
    then_Reads (read_json file) _ (json-Reads file) (parse_record-Reads sha256)

pub current_record-Allowed :
    (sha256 : Digest) (file : RecordFile) → Allowed IsReadError (current_record sha256 file)
unfolding current_record
current_record-Allowed sha256 nothing = tt
current_record-Allowed sha256 (found launching file) = read_record-Allowed sha256 file

token-Reads : (r : Result Fields) (token : String) → Reads r → Reads (token_in r token)
unfolding token_in is_record_failure
token-Reads (ok fields) token h = tt
token-Reads (err (os_error m)) token h = tt
token-Reads (err (value_error m)) token h = tt
token-Reads (err (runtime_error m)) token h = tt
token-Reads (err _) token h = absurd h

pub token_matches-Allowed :
    (marker : Option File) (r : SessionRecord) → Allowed IsReadError (token_matches marker r)
unfolding token_matches
token_matches-Allowed none r = tt
token_matches-Allowed (some file) r = token-Reads (read_json file) r.owner_token (json-Reads file)
