-- ===== src/Sessions/Fence.antt =====
-- The fence of src/blendersessiond/sessions.py: a Session Name leads to the current Session, and
-- its identity authorises the call or the stop.
use blendersessiond.Base.{String, ◌<>◌, not, str_eq, if◌then◌else◌}
use blendersessiond.Exec.{Result, ok, err, M, os_error, session_error, pure, throw, reads, ◌>>=◌}
use blendersessiond.Sessions.Record.{SessionRecord, Digest, read_record, is_record_failure}
use blendersessiond.Sessions.Disk.{Store, RecordFile, nothing, found, record_file}

unfoldable pub identity_mismatch : String → String
identity_mismatch name =
    "Session '" <> name <> "' identity does not match; refuse to use a replacement Session. Read "
    <> "status and retry with its exact session_id."

-- What the fence reads: no record, one that cannot be read, or one.
unfoldable pub current_record : Digest → RecordFile → Result SessionRecord
current_record sha256 nothing = err (os_error "no record")
current_record sha256 (found launching file) = read_record sha256 file

module _ {S : Type 0} where
  unfoldable pub require_session_identity : SessionRecord → String → M S Store Unit
  require_session_identity r expected_session_id =
      if not (str_eq r.session_id expected_session_id)
      then throw (session_error (identity_mismatch r.name))
      else pure tt

  -- A missing or unreadable record passes: the inspection that follows reports it.
  unfoldable pub require_if_read : Result SessionRecord → String → M S Store Unit
  require_if_read (ok r) expected_session_id = require_session_identity r expected_session_id
  require_if_read (err e) expected_session_id = if is_record_failure e then pure tt else throw e

  unfoldable pub require_current_session_identity : Digest → String → String → M S Store Unit
  require_current_session_identity sha256 component expected_session_id = do
    file ← reads (record_file component)
    require_if_read (current_record sha256 file) expected_session_id
