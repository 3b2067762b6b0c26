-- ===== src/Sessions/Disk.antt =====
-- The state directory of src/blendersessiond/sessions.py: below `sessions`, a directory for each
-- Session Name, with the record, the Ownership marker and the record of a launch in progress. The
-- files of the launch handshake belong to two processes, and stand with the operating system.
use blendersessiond.Base.{
  String, Bool, true, false, Option, none, some, List, [], ◌∷◌, str_eq, if◌then◌else◌,
}
use blendersessiond.Json.{File}

pub record Dir : Type 0 where
  pub session : Option File
  pub launching : Option File
  pub ownership : Option File

pub data Entry : Type 0 where
  plain : Entry
  folder : Dir → Entry

-- `present` is that `sessions` is a directory.
pub record Store : Type 0 where
  pub present : Bool
  pub entries : List (String × Entry)

abbrev pub no_files : Dir
no_files = record { session = none; launching = none; ownership = none }

unfoldable pub find : String → List (String × Entry) → Option Entry
find component [] = none
find component ((c, e) ∷ rest) = if str_eq c component then some e else find component rest

abbrev pub folder_of : Option Entry → Option Dir
folder_of (some (folder d)) = some d
folder_of _ = none

unfoldable pub dir : String → Store → Option Dir
dir component store = folder_of (find component store.entries)

-- `directory.exists()`
abbrev pub is_there : Option Entry → Bool
is_there none = false
is_there (some e) = true

unfoldable pub exists : String → Store → Bool
exists component store = is_there (find component store.entries)

abbrev pub in_folder : (Dir → Dir) → Entry → Entry
in_folder f plain = plain
in_folder f (folder d) = folder (f d)

unfoldable pub change : String → (Dir → Dir) → List (String × Entry) → List (String × Entry)
change component f [] = []
change component f ((c, e) ∷ rest) =
    if str_eq c component then (c, in_folder f e) ∷ rest else (c, e) ∷ change component f rest

-- A write or an unlink in one Session's directory.
unfoldable pub change_dir : String → (Dir → Dir) → Store → Store
unfolding change
change_dir component f store = record store { entries = change component f store.entries }

-- `_ensure_private_directory` of `sessions` and of the Session's directory. A directory is made if
-- there is nothing of its name.
unfoldable pub ensure_dir : String → Store → Store
ensure_dir component store =
    if exists component store
    then record store { present = true }
    else record { present = true; entries = (component, folder no_files) ∷ store.entries }

-- The three of the seven files of `_remove_record_files` that are kept here.
abbrev pub without_records : Dir → Dir
without_records d = no_files

-- The record to read: `session.json` if it exists, else `launching.json`.
pub data RecordFile : Type 0 where
  nothing : RecordFile
  found : Bool → File → RecordFile

abbrev launch_file : Option File → RecordFile
launch_file none = nothing
launch_file (some file) = found true file

abbrev session_file : Option File → Option File → RecordFile
session_file (some file) launching = found false file
session_file none launching = launch_file launching

abbrev pub in_dir : Option Dir → RecordFile
in_dir none = nothing
in_dir (some d) = session_file d.session d.launching

unfoldable pub record_file : String → Store → RecordFile
record_file component store = in_dir (dir component store)

abbrev ownership_in : Option Dir → Option File
ownership_in none = none
ownership_in (some d) = d.ownership

unfoldable pub ownership_file : String → Store → Option File
ownership_file component store = ownership_in (dir component store)
