-- ===== src/Sessions/Fenced.antt =====
-- The fence of `call_session` and `stop_session` in src/blendersessiond/sessions.py: what happens
-- to a caller who holds the identity of another Session.
use blendersessiond.Base.{ℕ, String, ◌≡◌, refl, true, false, Option, none, some, str_eq, ◌∷◌}
use blendersessiond.Json.{Fields}
use blendersessiond.Exec.{
  World, Result, ok, err, M, name_lock, session_error, acquired, throw, lift, reads, ◌>>=◌,
  file_lock,
}
use blendersessiond.Exec.Locks.{without-cons}
use blendersessiond.Sessions.Name.{validate_session_name, validate_session_id, hex}
use blendersessiond.Sessions.Record.{SessionRecord, Digest}
use blendersessiond.Sessions.Disk.{
  Store, Entry, folder_of, in_dir, is_there, find, dir, record_file, exists,
}
use blendersessiond.Sessions.Inspect.{Outside, session_directory}
use blendersessiond.Sessions.Launch.{Launcher}
use blendersessiond.Sessions.Fence.{
  identity_mismatch, current_record, require_if_read, require_session_identity,
  require_current_session_identity,
}
use blendersessiond.Sessions.Lifecycle.{call_locked, call_session}
use blendersessiond.Sessions.Stop.{stop_in, stop_locked, stop_session}

module _ {S A : Type 0} where
  file_lock-run :
      (component : String) (body : M S Store A) (w : World S Store) (r : Result A)
      → ((v : World S Store) → v.disk ≡ w.disk → body v ≡ (r, v))
      → file_lock (name_lock component) body w
        ≡ (r, record w { events = acquired (name_lock component) w.held ∷ w.events })
  unfolding file_lock
  file_lock-run component body w r h =
      let entered : World S Store = record w {
        held = name_lock component ∷ w.held;
        events = acquired (name_lock component) w.held ∷ w.events;
      } in
      rw (h entered refl) rw (without-cons (name_lock component) w.held) refl

module _ (sha256 : Digest) (component : String) (r : SessionRecord) where
  there-current_record :
      (e : Option Entry) → current_record sha256 (in_dir (folder_of e)) ≡ ok r → is_there e ≡ true
  unfolding current_record
  there-current_record none h = cc
  there-current_record (some e) h = refl

  -- A record stands in a directory that exists.
  exists-current_record :
      (store : Store)
      → current_record sha256 (record_file component store) ≡ ok r
      → exists component store ≡ true
  unfolding record_file exists dir
  exists-current_record store h = there-current_record (find component store.entries) h

module _ {S : Type 0} (sha256 : Digest) (component expected : String) (r : SessionRecord) where
  fence-foreign :
      (v : World S Store)
      → current_record sha256 (record_file component v.disk) ≡ ok r
      → str_eq r.session_id expected ≡ false
      → require_current_session_identity sha256 component expected v
        ≡ (err (session_error (identity_mismatch r.name)), v)
  unfolding require_current_session_identity ◌>>=◌ reads require_if_read require_session_identity
      throw
  fence-foreign v e d = rw (e, d)

module _ {S : Type 0} (o : Outside S) (name expected : String) (r : SessionRecord)
    (w : World S Store) (valid-name : validate_session_name name ≡ ok name)
    (valid-id : validate_session_id expected ≡ ok expected)
    (recorded : current_record o.sha256 (record_file (hex name) w.disk) ≡ ok r)
    (foreign : str_eq r.session_id expected ≡ false) where
  -- With valid arguments, while the record that can be read has another identity, a stop raises
  -- the mismatch error, and all that it changes is that it has taken the name lock and given it
  -- back: the records, the system and all processes are as before.
  pub stop_session-foreign :
      (l : Launcher S)
      → stop_session o l name expected w ≡ (
        err (session_error (identity_mismatch r.name)),
        record w { events = acquired (name_lock (hex name)) w.held ∷ w.events },
      )
  unfolding stop_session stop_in stop_locked ◌>>=◌ lift reads session_directory
  stop_session-foreign l =
      rw (valid-name, valid-id, exists-current_record o.sha256 (hex name) r w.disk recorded)
        (file_lock-run (hex name) (stop_locked o l (hex name) name expected) w
          (err (session_error (identity_mismatch r.name)))
          (λ v e. rw (fence-foreign o.sha256 (hex name) expected r v (rw e recorded) foreign)))

  -- With valid arguments, while the record that can be read has another identity, a call raises the
  -- mismatch error, and all that it changes is that it has taken the name lock and given it back:
  -- nothing is sent to the addon.
  pub call_session-foreign :
      (command : String) (params : Option Fields) (read_timeout : ℕ)
      → call_session o command params name expected read_timeout w ≡ (
        err (session_error (identity_mismatch r.name)),
        record w { events = acquired (name_lock (hex name)) w.held ∷ w.events },
      )
  unfolding call_session call_locked ◌>>=◌ lift reads session_directory
  call_session-foreign command params t =
      rw (valid-name, valid-id, exists-current_record o.sha256 (hex name) r w.disk recorded)
        (file_lock-run (hex name) (call_locked o (hex name) name command params expected t) w
          (err (session_error (identity_mismatch r.name)))
          (λ v e. rw (fence-foreign o.sha256 (hex name) expected r v (rw e recorded) foreign)))
