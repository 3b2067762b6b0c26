-- ===== src/Tests/Sessions.antt =====
-- The theorems on src/blendersessiond/sessions.py at one recorded Session.
use blendersessiond.Base.{
  ℕ, ℤ, pos, ◌≡◌, refl, String, Bool, true, false, Option, none, some, List, [], ◌∷◌, All, codes,
  between, int_eq, is_positive,
}
use blendersessiond.Json.{holds, obj}
use blendersessiond.Exec.{ok, err, name_lock, session_error, acquired}
use blendersessiond.Exec.Keeps.{Keeps}
use blendersessiond.Exec.Locks.{Disciplined}
use blendersessiond.Sessions.Name.{
  validate_session_name, validate_session_id, hex, hex_digit, component_name,
}
use blendersessiond.Sessions.Component.{component_name-hex, lex_leb-hex, lex_leb}
use blendersessiond.Sessions.Record.{as_dict, read_record, IsValidRecord}
use blendersessiond.Sessions.Codec.{read_record-as_dict, read_record-IsValidRecord}
use blendersessiond.Sessions.Disk.{record_file, dir, find}
use blendersessiond.Sessions.Fence.{identity_mismatch, current_record}
use blendersessiond.Sessions.FreePort.{IsFirstFree, first_free-IsFirstFree}
use blendersessiond.Sessions.Ports.{first_free}
use blendersessiond.Sessions.Lifecycle.{inspect_session, call_session}
use blendersessiond.Sessions.Stop.{stop_session}
use blendersessiond.Sessions.Fenced.{stop_session-foreign, call_session-foreign}
use blendersessiond.Sessions.Quiet.{OnlyLooked, inspect_session-OnlyLooked}
use blendersessiond.Exec.Ends.{Ends}
use blendersessiond.Sessions.Coherent.{Coherent, inspect_session-Coherent}
use blendersessiond.Sessions.Removed.{AsReported, stop_session-Removed}
use blendersessiond.Sessions.LockOrder.{call_session-Disciplined, stop_session-Disciplined}
use blendersessiond.Tests.Machine.{
  machine, launcher, one_session, current_id, other_id, recorded_session,
}

default-valid : validate_session_name "default" ≡ ok "default"
unfolding validate_session_name
default-valid = refl

other_id-valid : validate_session_id other_id ≡ ok other_id
unfolding validate_session_id
other_id-valid = refl

recorded_session-IsValidRecord : IsValidRecord recorded_session
unfolding validate_session_id
recorded_session-IsValidRecord = record {
  schema = refl;
  process = refl;
  controller = refl;
  port = refl;
  identity = refl;
}

recorded :
    current_record machine.sha256 (record_file (hex "default") one_session.disk)
    ≡ ok recorded_session
unfolding current_record record_file dir find hex hex_digit blendersessiond.Base.ascii
recorded = read_record-as_dict machine.sha256 recorded_session recorded_session-IsValidRecord

-- A stop of the Session that stands there, with the identity of another.
stop_session-foreign_example : stop_session machine launcher "default" other_id one_session ≡ (
  err (session_error (identity_mismatch "default")),
  record one_session { events = acquired (name_lock (hex "default")) [] ∷ [] },
)
stop_session-foreign_example =
    stop_session-foreign machine "default" other_id recorded_session one_session default-valid
      other_id-valid recorded refl launcher

call_session-foreign_example :
    call_session machine "get_scene_info" none "default" other_id 1000 one_session ≡ (
      err (session_error (identity_mismatch "default")),
      record one_session { events = acquired (name_lock (hex "default")) [] ∷ [] },
    )
call_session-foreign_example =
    call_session-foreign machine "default" other_id recorded_session one_session default-valid
      other_id-valid recorded refl "get_scene_info" none 1000

inspect_session-OnlyLooked_example :
    OnlyLooked one_session.disk (inspect_session machine "default" one_session).1
inspect_session-OnlyLooked_example = inspect_session-OnlyLooked machine "default" one_session tt

call_session-Disciplined_example :
    Keeps (Disciplined []) (call_session machine "get_scene_info" none "default" current_id 1000)
call_session-Disciplined_example =
    call_session-Disciplined machine "get_scene_info" none "default" current_id 1000

stop_session-Disciplined_example :
    Keeps (Disciplined []) (stop_session machine launcher "default" current_id)
stop_session-Disciplined_example = stop_session-Disciplined machine launcher "default" current_id

read_record-as_dict_example :
    read_record (λ s. s) (holds (obj (as_dict recorded_session))) ≡ ok recorded_session
read_record-as_dict_example =
    read_record-as_dict (λ s. s) recorded_session recorded_session-IsValidRecord

read_record-IsValidRecord_example : IsValidRecord recorded_session
read_record-IsValidRecord_example =
    read_record-IsValidRecord (λ s. s) (holds (obj (as_dict recorded_session))) recorded_session
      (read_record-as_dict (λ s. s) recorded_session recorded_session-IsValidRecord)

first_free-IsFirstFree_example :
    IsFirstFree 9876 (pos 9876 ∷ pos 9878 ∷ []) (first_free 3 (pos 9876) (pos 9876 ∷ pos 9878 ∷ []))
first_free-IsFirstFree_example = first_free-IsFirstFree 9876 (pos 9876 ∷ pos 9878 ∷ [])

component_name-hex_example : component_name (hex "default") ≡ some "default"
component_name-hex_example = component_name-hex "default" default-valid

lex_leb-hex_example :
    lex_leb (codes (hex "a.b")) (codes (hex "a_b")) ≡ lex_leb (codes "a.b") (codes "a_b")
lex_leb-hex_example = lex_leb-hex "a.b" "a_b" refl refl

inspect_session-Coherent_example : Ends (λ i _. Coherent i) (inspect_session machine "default")
inspect_session-Coherent_example = inspect_session-Coherent machine "default"

stop_session-Removed_example :
    Ends (AsReported (hex "default")) (stop_session machine launcher "default" current_id)
stop_session-Removed_example =
    stop_session-Removed machine launcher "default" current_id default-valid
