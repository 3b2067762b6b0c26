-- ===== src/Sessions/Removed.antt =====
-- What `stop_session` of src/blendersessiond/sessions.py leaves behind when it reports a stop.
use mathlib.Core.Path.{subst}
use blendersessiond.Base.{
  String, ◌≡◌, refl, true, false, Option, none, some, List, [], ◌∷◌, str_eq, Bool-cases, inl, inr,
}
use blendersessiond.Exec.{World, M, ok, lift, pure, system, writes, ◌>>=◌}
use blendersessiond.Exec.Ends.{
  Ends, Ended, Ends-pure, Ends-throw, Ends-if, Ends-bind, Ends-then, Ends-file_lock,
}
use blendersessiond.Sessions.Record.{SessionRecord}
use blendersessiond.Sessions.Name.{hex, validate_session_name}
use blendersessiond.Sessions.Disk.{
  Store, Entry, plain, folder, nothing, find, folder_of, in_dir, dir, record_file, change,
  in_folder, change_dir, without_records,
}
use blendersessiond.Sessions.Inspection.{SessionInspection}
use blendersessiond.Sessions.Inspect.{Outside, session_directory}
use blendersessiond.Sessions.Launch.{Launcher, remove_record_files}
use blendersessiond.Sessions.Stop.{
  StopResult, not_stopped, end_session, stop_live, stop_stale, stop_recorded, stop_inspected,
  stop_in, stop_locked, stop_session,
}

removed_entry : (e : Entry) → in_dir (folder_of (some (in_folder without_records e))) ≡ nothing
removed_entry plain = refl
removed_entry (folder d) = refl

find-change :
    (component : String) (entries : List (String × Entry))
    → in_dir (folder_of (find component (change component without_records entries))) ≡ nothing
unfolding find change
find-change component [] = refl
find-change component ((c, e) ∷ rest) = elim (Bool-cases (str_eq c component)) [
  | inl same ↦ rw same (rw same (removed_entry e))
  | inr other ↦ rw other (rw other (find-change component rest))
]

-- No record can be read in this directory.
abbrev pub Removed : String → Store → Type 0
Removed component store = record_file component store ≡ nothing

-- A stop is reported only where no record is left.
abbrev pub AsReported : {S : Type 0} → String → StopResult → World S Store → Type 0
AsReported component result w = result.stopped ≡ true → Removed component w.disk

record_file-change_dir :
    (component : String) (store : Store)
    → Removed component (change_dir component without_records store)
unfolding record_file dir change_dir
record_file-change_dir component store = find-change component store.entries

module _ {S : Type 0} (o : Outside S) (l : Launcher S) (component : String) where
  remove_record_files-Ends :
      Ends (λ _ (w : World S Store). Removed component w.disk) (remove_record_files o l component)
  unfolding remove_record_files ◌>>=◌ writes system
  remove_record_files-Ends = record { run = λ w. record_file-change_dir component w.disk }

  end_session-Ends :
      (r : SessionRecord)
      → Ends (λ _ (w : World S Store). Removed component w.disk) (end_session o l component r)
  unfolding end_session
  end_session-Ends r =
      Ends-file_lock _ _ (λ _ _ _ h. h) (Ends-bind _ _ λ _. remove_record_files-Ends)

  abbrev Reported : M S Store StopResult → Type 0
  Reported m = Ends (AsReported component) m

  stop_live-Ends : (name : String) (r : SessionRecord) → Reported (stop_live o l component name r)
  unfolding stop_live pure
  stop_live-Ends name r = Ends-then _ _ (end_session-Ends r) (λ _ w removed _. removed)

  not_stopped-Ends : (i : SessionInspection) (text : String) → Reported (pure (not_stopped i text))
  unfolding not_stopped
  not_stopped-Ends i text = Ends-pure _ (λ w (h : false ≡ true). cc)

  stop_inspected-Ends :
      (name : String) (i : SessionInspection) (r : Option SessionRecord)
      → Reported (stop_inspected o l component name i r)
  unfolding stop_inspected stop_recorded stop_stale
  stop_inspected-Ends name i none = not_stopped-Ends i ""
  stop_inspected-Ends name i (some r) = Ends-if _ _ _ (stop_live-Ends name r) (
      Ends-if _ _ _ (Ends-throw _)
        (Ends-if _ _ _ (not_stopped-Ends i _) (Ends-bind _ _ λ _. not_stopped-Ends i _)))

  stop_locked-Ends : (name expected : String) → Reported (stop_locked o l component name expected)
  unfolding stop_locked
  stop_locked-Ends name expected =
      Ends-bind _ _ λ _. Ends-bind _ _ λ i. stop_inspected-Ends name i i.session

  stop_in-Ends : (name expected : String) → Reported (stop_in o l component name expected)
  unfolding stop_in
  stop_in-Ends name expected = Ends-bind _ _ λ there.
      Ends-if there _ _ (Ends-file_lock _ _ (λ _ _ _ h. h) (stop_locked-Ends name expected))
        (not_stopped-Ends _ _)

module _ {S : Type 0} (o : Outside S) (l : Launcher S) (name expected : String) where
  directory-Ends :
      validate_session_name name ≡ ok name
      → Ends (λ c (w : World S Store). c ≡ hex name) (lift (session_directory name))
  unfolding session_directory lift
  directory-Ends valid = record { run = λ w. rw valid refl }

  -- With a valid Session Name, a stop that returns and reports that it stopped the Session leaves no
  -- record behind that an inspection could read.
  pub stop_session-Removed :
      validate_session_name name ≡ ok name
      → Ends (AsReported (hex name)) (stop_session o l name expected)
  unfolding stop_session
  stop_session-Removed valid = Ends-bind _ _ λ _. Ends-bind _ _ λ _.
      Ends-then _ _ (directory-Ends valid) λ c w same.
        subst (λ d. Ended (AsReported d) (stop_in o l c name expected w)) same
          ((stop_in-Ends o l c name expected).run w)
