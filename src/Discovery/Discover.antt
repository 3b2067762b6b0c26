-- ===== src/Discovery/Discover.antt =====
-- `discover_blender`, `standard_candidates` and `_find_on_explicit_path` of
-- src/blendersessiond/discovery.py.
use Prim.Native.Char.{code}
use blendersessiond.Base.{
  ℕ, String, ◌<>◌, not, ◌&&◌, Option, none, some, List, [], ◌∷◌, map, ◌==◌, str_eq, str_in,
  if◌then◌else◌, Environ, lookup,
}
use blendersessiond.Exec.{M, pure, system, ◌>>=◌}
use blendersessiond.Discovery.Host.{Host, PathModule}
use blendersessiond.Discovery.Select.{
  BlenderDiscovery, not_discovered, missing_blender_message, deduplicate, select_candidates,
}

abbrev pub blender_variable : String
blender_variable = "BLENDERSESSIOND_BLENDER"

-- `if text:` for an optional text.
unfoldable pub truthy : Option String → Option String
truthy none = none
truthy (some s) = if str_eq s "" then none else some s

abbrev pub or_text : Option String → String → String
or_text none d = d
or_text (some s) d = s

unfoldable pub platform_label : String → String
platform_label system_name =
    if str_eq system_name "Darwin"
    then "macOS"
    else if str_eq system_name "Windows"
    then "Windows"
    else if str_eq system_name "Linux"
    then "Linux"
    else if str_eq system_name ""
    then "unknown"
    else system_name

-- `text.split(separator)`
add_to_first : String → List String → List String
add_to_first s [] = s ∷ []
add_to_first s (w ∷ ws) = (s <> w) ∷ ws

unfoldable pub split_at : ℕ → String → List String
unfolding add_to_first
split_at sep String.[] = "" ∷ []
split_at sep (String.◌∷◌ c s) =
    let rest = split_at sep s in
    if code c == sep then "" ∷ rest else add_to_first (String.◌∷◌ c String.[]) rest

module _ {S : Type 0} (h : Host S) where
  abbrev pub path_module : String → PathModule
  path_module system_name = if str_eq system_name "Windows" then h.ntpath else h.posixpath

  unfoldable pub absolute_path : String → String → String
  absolute_path path system_name = (path_module system_name).abspath (h.expanduser path)

-- The entries of PATH that are neither empty nor relative.
unfoldable pub trusted : PathModule → List String → List String
trusted paths [] = []
trusted paths (entry ∷ entries) =
    let rest = trusted paths entries in
    if not (str_eq entry "") && paths.isabs entry then paths.normpath entry ∷ rest else rest

unfoldable pub path_entries : PathModule → String → String → List String
unfolding trusted split_at
path_entries paths path system_name =
    trusted paths (split_at (if str_eq system_name "Windows" then b';' else b':') path)

-- A hit of `which` counts if its directory is one of the trusted entries.
unfoldable pub within : PathModule → List String → Option String → Option String
within paths entries none = none
within paths entries (some hit) =
    if str_in (paths.normcase (paths.dirname (paths.abspath hit)))
      (map (λ entry. paths.normcase (paths.abspath entry)) entries)
    then some hit
    else none

module _ {S D : Type 0} (h : Host S) where
  unfoldable pub first_executable : String → String → List String → M S D (Option String)
  first_executable executable_name system_name [] = pure none
  first_executable executable_name system_name (entry ∷ entries) = do
    let candidate = (path_module h system_name).join entry executable_name
    file ← system (h.is_file candidate)
    usable ←
        (if file && not (str_eq system_name "Windows")
          then system (h.can_execute candidate)
          else pure file)
    if usable then pure (some candidate) else first_executable executable_name system_name entries

  find_in :
      String
      → String
      → List String
      → Option (String → S → Option String × S)
      → M S D (Option String)
  find_in executable_name system_name [] which = pure none
  find_in executable_name system_name (entry ∷ entries) none =
      first_executable executable_name system_name (entry ∷ entries)
  find_in executable_name system_name (entry ∷ entries) (some finder) = do
    hit ← system (finder executable_name)
    pure (within (path_module h system_name) (entry ∷ entries) (truthy hit))

  unfoldable pub find_on_explicit_path : String → String → String → M S D (Option String)
  unfolding find_in within
  find_on_explicit_path executable_name path system_name =
      find_in executable_name system_name
        (path_entries (path_module h system_name) path system_name) h.which

  standard_windows : Option String → M S D (List String)
  standard_windows none = pure []
  standard_windows (some program_files) = do
    found ← system (
        h.glob (
          h.ntpath.join
            (h.ntpath.join (h.ntpath.join program_files "Blender Foundation") "Blender *")
            "blender.exe"))
    pure (deduplicate found)

  unfoldable pub standard_candidates : String → Environ → M S D (List String)
  unfolding standard_windows
  standard_candidates system_name environ =
      if str_eq system_name "Darwin"
      then (do
        found ← system (h.glob "/Applications/Blender *.app/Contents/MacOS/Blender")
        pure (deduplicate ("/Applications/Blender.app/Contents/MacOS/Blender" ∷ found)))
      else if str_eq system_name "Windows"
      then standard_windows (truthy (lookup "ProgramFiles" environ))
      else if str_eq system_name "Linux"
      then (do
        found ← system (h.glob "/opt/blender*/blender")
        pure (deduplicate ("/usr/bin/blender" ∷ "/snap/bin/blender" ∷ found)))
      else pure []

  from_standard : String → List String → M S D BlenderDiscovery
  from_standard system_name [] = pure (not_discovered missing_blender_message)
  from_standard system_name (path ∷ paths) =
      select_candidates h (path ∷ paths) "standard_location"
        ("standard " <> platform_label system_name <> " install locations")

  from_path : String → Environ → Option String → M S D BlenderDiscovery
  unfolding from_standard
  from_path system_name environ (some hit) =
      select_candidates h (absolute_path h hit system_name ∷ []) "PATH" "PATH"
  from_path system_name environ none = do
    standard ← standard_candidates system_name environ
    from_standard system_name standard

  from_environment : String → Environ → Option String → M S D BlenderDiscovery
  unfolding from_path
  from_environment system_name environ (some path) =
      select_candidates h (absolute_path h path system_name ∷ []) blender_variable
        ("the " <> blender_variable <> " environment variable")
  from_environment system_name environ none = do
    hit ←
        find_on_explicit_path (if str_eq system_name "Windows" then "blender.exe" else "blender")
          (or_text (lookup "PATH" environ) "") system_name
    from_path system_name environ (truthy hit)

  from_flag : String → Environ → Option String → M S D BlenderDiscovery
  unfolding from_environment
  from_flag system_name environ (some path) =
      select_candidates h (absolute_path h path system_name ∷ []) "--blender" "the --blender flag"
  from_flag system_name environ none =
      from_environment system_name environ (truthy (lookup blender_variable environ))

  -- The first source that names an executable decides: the flag, the environment variable, PATH,
  -- the standard locations.
  unfoldable pub discover_blender : Option String → Environ → String → M S D BlenderDiscovery
  unfolding from_flag
  discover_blender explicit_path environ system_name =
      from_flag system_name environ (truthy explicit_path)
