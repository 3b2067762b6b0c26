-- ===== src/Discovery/Select.antt =====
-- `_select_candidates` and `_probe_version` of src/blendersessiond/discovery.py.
use blendersessiond.Base.{
  ℕ, String, ◌<>◌, show, Bool, true, false, not, ◌&&◌, Option, none, some, List, [], ◌∷◌, ◌==◌, ltb,
  str_eq, str_in, codes, length, if◌then◌else◌,
}
use blendersessiond.Exec.{
  Error, Result, ok, err, M, os_error, runtime_error, timeout_error, session_error, setup_error,
  already_running, attempt_conflict, wire_error, subprocess_error, message, pure, throw, system,
  ◌>>=◌,
}
use blendersessiond.Discovery.Version.{Version, search_version, version_key, version_text, key_lt}
use blendersessiond.Discovery.Host.{Host, VersionRun, completed, run_failed}

pub record BlenderDiscovery : Type 0 where
  pub path : Option String
  pub version : Option String
  pub source : Option String
  pub message : String

abbrev pub is_some : Option String → Bool
is_some none = false
is_some (some s) = true

unfoldable pub passed : BlenderDiscovery → Bool
passed d = is_some d.path && is_some d.version

pub record ProbedCandidate : Type 0 where
  pub path : String
  pub version : String
  pub version_key : ℕ × ℕ × ℕ

abbrev pub remedy : String
remedy =
    "Install Blender, pass --blender PATH, set BLENDERSESSIOND_BLENDER, or add Blender to PATH."

abbrev pub missing_blender_message : String
missing_blender_message = "Blender was not found. " <> remedy

unfoldable pub not_discovered : String → BlenderDiscovery
not_discovered text = record { path = none; version = none; source = none; message = text }

-- `list(dict.fromkeys(paths))`; `seen` holds the paths in front.
unfoldable pub deduplicate_from : List String → List String → List String
deduplicate_from seen [] = []
deduplicate_from seen (path ∷ paths) =
    let rest = deduplicate_from (path ∷ seen) paths in
    let same = deduplicate_from seen paths in if str_in path seen then same else path ∷ rest

unfoldable pub deduplicate : List String → List String
unfolding deduplicate_from
deduplicate = deduplicate_from []

-- `"\n".join(part for part in (stdout, stderr) if part)`
joined : String → String → String
joined stdout stderr =
    if str_eq stdout ""
    then stderr
    else if str_eq stderr ""
    then stdout
    else stdout <> "\n" <> stderr

matched : String → Option Version → Result ProbedCandidate
matched path none = err (runtime_error "output did not contain a Blender version")
matched path (some v) =
    ok (record { path = path; version = version_text v; version_key = version_key v })

unfoldable pub probe_version : String → VersionRun → Result ProbedCandidate
unfolding joined matched
probe_version path (run_failed e) = err e
probe_version path (completed returncode stdout stderr) =
    if not (returncode == 0)
    then err (runtime_error ("`--version` exited with code " <> show returncode))
    else matched path (search_version (codes (joined stdout stderr)))

-- `except (OSError, RuntimeError, subprocess.SubprocessError)`
unfoldable pub is_probe_failure : Error → Bool
is_probe_failure (os_error m) = true
is_probe_failure (timeout_error m) = true
is_probe_failure (runtime_error m) = true
is_probe_failure (session_error m) = true
is_probe_failure (already_running m) = true
is_probe_failure (setup_error m) = true
is_probe_failure (attempt_conflict m) = true
is_probe_failure (wire_error r m) = true
is_probe_failure (subprocess_error m) = true
is_probe_failure _ = false

-- `max(probed, key=…)`: the first of the candidates with the greatest key.
unfoldable pub newest : ProbedCandidate → List ProbedCandidate → ProbedCandidate
newest best [] = best
newest best (c ∷ cs) = newest (if key_lt best.version_key c.version_key then c else best) cs

newest_note : ℕ → String
newest_note n = if ltb 1 n then "; newest of " <> show n <> " valid candidates" else ""

unfoldable pub selected_from :
    String → String → ProbedCandidate → List ProbedCandidate → BlenderDiscovery
unfolding newest_note
selected_from source description c cs =
    let selected = newest c cs in
    record {
      path = some selected.path;
      version = some selected.version;
      source = some source;
      message =
          "Blender "
          <> selected.version
          <> " at "
          <> selected.path
          <> " selected from "
          <> description
          <> newest_note (length (c ∷ cs))
          <> ".";
    }

-- What came of the probes so far: the candidates and the failures, the last first.
pub record Probes : Type 0 where
  pub probed : List ProbedCandidate
  pub failures : List String

join_reversed : List String → String
join_reversed [] = ""
join_reversed (x ∷ []) = x
join_reversed (x ∷ y ∷ rest) = join_reversed (y ∷ rest) <> "; " <> x

unfoldable pub in_order : List ProbedCandidate → List ProbedCandidate → List ProbedCandidate
in_order [] out = out
in_order (c ∷ cs) out = in_order cs (c ∷ out)

unfoldable pub choose : String → String → List String → List ProbedCandidate → BlenderDiscovery
unfolding selected_from join_reversed
choose source description failures [] = not_discovered (
    "Found Blender via "
    <> description
    <> ", but could not read its version ("
    <> join_reversed failures
    <> "). "
    <> remedy)
choose source description failures (c ∷ cs) = selected_from source description c cs

unfoldable pub choose_probed : String → String → Probes → BlenderDiscovery
unfolding choose in_order
choose_probed source description p = choose source description p.failures (in_order p.probed [])

missing_message : String → List String → String
missing_message description (path ∷ []) =
    if str_eq path ""
    then missing_blender_message
    else "Blender from " <> description <> " is not a file: " <> path <> ". " <> remedy
missing_message description _ = missing_blender_message

module _ {S D : Type 0} (h : Host S) where
  unfoldable pub existing : List String → M S D (List String)
  existing [] = pure []
  existing (path ∷ paths) = do
    here ← system (h.is_file path)
    rest ← existing paths
    pure (if here then path ∷ rest else rest)

  probe_outcome : String → Probes → Result ProbedCandidate → M S D Probes
  probe_outcome path p (ok c) = pure (record p { probed = c ∷ p.probed })
  probe_outcome path p (err e) =
      if is_probe_failure e
      then pure (record p { failures = (path <> ": " <> message e) ∷ p.failures })
      else throw e

  unfoldable pub probe_all : List String → Probes → M S D Probes
  unfolding probe_outcome
  probe_all [] p = pure p
  probe_all (path ∷ paths) p = do
    run ← system (h.run_version path)
    p' ← probe_outcome path p (probe_version path run)
    probe_all paths p'

  probe_existing : String → String → List String → List String → M S D BlenderDiscovery
  probe_existing source description candidates [] =
      pure (not_discovered (missing_message description candidates))
  probe_existing source description candidates (path ∷ paths) = do
    p ← probe_all (path ∷ paths) (record { probed = []; failures = [] })
    pure (choose_probed source description p)

  unfoldable pub select_candidates : List String → String → String → M S D BlenderDiscovery
  unfolding probe_existing missing_message
  select_candidates candidates source description = do
    paths ← existing (deduplicate candidates)
    probe_existing source description candidates paths
