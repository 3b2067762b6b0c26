-- ===== src/Sessions/Overview.antt =====
-- `inspect_all_sessions` of src/blendersessiond/sessions.py.
use blendersessiond.Base.{
  String, ◌<>◌, Bool, true, false, not, ◌||◌, Option, none, some, List, [], ◌∷◌, codes,
  if◌then◌else◌,
}
use blendersessiond.Json.{File}
use blendersessiond.Exec.{M, pure, reads, ◌>>=◌}
use blendersessiond.Sessions.Name.{component_name}
use blendersessiond.Sessions.Component.{lex_leb}
use blendersessiond.Sessions.Disk.{Store, Entry, plain, folder}
use blendersessiond.Sessions.Inspection.{SessionInspection, unreadable, basic}
use blendersessiond.Sessions.Inspect.{Outside}
use blendersessiond.Sessions.Lifecycle.{inspect_session}
use blendersessiond.Sessions.Start.{is_not_found}

-- `sorted(sessions_root.iterdir())`, where the paths differ in their last name.
unfoldable pub insert_entry : String × Entry → List (String × Entry) → List (String × Entry)
insert_entry e [] = e ∷ []
insert_entry e (x ∷ xs) =
    let rest = insert_entry e xs in if lex_leb (codes e.0) (codes x.0) then e ∷ x ∷ xs else x ∷ rest

unfoldable pub sorted : List (String × Entry) → List (String × Entry)
sorted [] = []
sorted (e ∷ es) = insert_entry e (sorted es)

abbrev is_file : Option File → Bool
is_file none = false
is_file (some f) = true

unfoldable pub has_record : Entry → Bool
has_record plain = false
has_record (folder d) = is_file d.session || is_file d.launching

unfoldable pub invalid_name_inspection : String → SessionInspection
invalid_name_inspection component =
    basic component unreadable
      ("Session state directory '" <> component <> "' has an invalid Session Name.") none false
      false

unfoldable pub prepend_found : SessionInspection → List SessionInspection → List SessionInspection
prepend_found inspection rest =
    if not (is_not_found inspection.status) then inspection ∷ rest else rest

module _ {S : Type 0} (o : Outside S) where
  -- One recorded directory.
  unfoldable pub inspect_directory : String → Option String → M S Store SessionInspection
  inspect_directory component none = pure (invalid_name_inspection component)
  inspect_directory component (some name) = inspect_session o name

  unfoldable pub inspect_entries : List (String × Entry) → M S Store (List SessionInspection)
  inspect_entries [] = pure []
  inspect_entries ((component, e) ∷ entries) =
      if not (has_record e) then inspect_entries entries else do
        inspection ← inspect_directory component (component_name component)
        rest ← inspect_entries entries
        pure (prepend_found inspection rest)

  unfoldable pub inspect_all_sessions : M S Store (List SessionInspection)
  inspect_all_sessions = do
    entries ← reads (λ store. if store.present then store.entries else [])
    inspect_entries (sorted entries)
