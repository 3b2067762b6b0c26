-- ===== src/Sessions/InspectFailures.antt =====
-- With what an inspection of src/blendersessiond/sessions.py can fail.
use blendersessiond.Base.{ℕ, arith, String, Option, Bool, true, false}
use blendersessiond.Exec.{Result, ok, err, Error, os_error, value_error, runtime_error}
use blendersessiond.Exec.Raises.{
  Allowed, Allowed-weaken, Raises, Raises-throw, Raises-weaken, raises_rules, Raises-bind,
  Raises-pure,
}
use blendersessiond.Wire.Receive.{Loaded}
use blendersessiond.Wire.Failures.{
  IsJsonError, probe_addon-Raises, query_unsaved_changes-Raises, Raises-catch_wire,
}
use blendersessiond.Wire.Client.{probe_addon}
use blendersessiond.Processes.Kernel.{Kernel}
use blendersessiond.Processes.Looks.{
  Raises-either, IsLookError, process_matches-Looks, owned_tree_exists-Looks,
}
use blendersessiond.Processes.Identity.{process_matches}
use blendersessiond.Processes.Tree.{owned_tree_exists}
use blendersessiond.Sessions.Record.{SessionRecord, read_record, is_record_failure}
use blendersessiond.Sessions.Unreadable.{IsReadError, read_record-Allowed, token_matches-Allowed}
use blendersessiond.Json.{File}
use blendersessiond.Sessions.Disk.{Store, RecordFile, nothing, found}
use blendersessiond.Sessions.Inspection.{Assessment, settled, ask_socket, token_matches}
use blendersessiond.Sessions.Inspect.{
  Outside, unsaved_if, ask_addon, after_assessment, inspect_record, inspect_file,
}
use blendersessiond.Base.{ℤ, List}

-- An `OSError` of the system, a `ValueError` of bytes or of `json.loads`, or a `RecursionError`.
abbrev pub IsInspectError : Error → Type 0
IsInspectError (os_error _) = Unit
IsInspectError (value_error _) = Unit
IsInspectError (runtime_error _) = Unit
IsInspectError _ = ⊥

look-IsInspectError : {S : Type 0} (k : Kernel S) (e : Error) → IsLookError k e → IsInspectError e
look-IsInspectError k (os_error m) h = tt
look-IsInspectError k (value_error m) h = tt
look-IsInspectError k _ h = absurd h

json-IsInspectError : (loads : List ℕ → Loaded) (e : Error) → IsJsonError loads e → IsInspectError e
json-IsInspectError loads (value_error m) h = tt
json-IsInspectError loads (runtime_error m) h = tt
json-IsInspectError loads _ h = absurd h

read-IsInspectError : (e : Error) → IsReadError e → IsInspectError e
read-IsInspectError (os_error m) h = tt
read-IsInspectError (value_error m) h = tt
read-IsInspectError (runtime_error m) h = tt
read-IsInspectError _ h = absurd h

marker-Allowed :
    (marker : Option File) (r : SessionRecord) → Allowed IsInspectError (token_matches marker r)
marker-Allowed marker r = Allowed-weaken _ read-IsInspectError (token_matches-Allowed marker r)

module _ {S : Type 0} (o : Outside S) where
  abbrev Inspects : {A : Type 0} → blendersessiond.Exec.M S Store A → Type 0
  Inspects m = Raises IsInspectError m

  unsaved_if-Inspects : (healthy : Bool) (port : ℕ) → Inspects (unsaved_if o healthy port)
  unfolding unsaved_if
  unsaved_if-Inspects true port =
      Raises-catch_wire o.network.loads _ _ (json-IsInspectError o.network.loads)
        (Raises-bind _ _ (query_unsaved_changes-Raises o.network port) λ _. Raises-pure _)
        (λ r m. Raises-pure _)
  unsaved_if-Inspects false port = Raises-pure _

  twice : (port : ℕ) → Inspects (probe_addon o.network port 2)
  twice port =
      Raises-weaken _ (json-IsInspectError o.network.loads)
        (probe_addon-Raises o.network port 2 (omega arith))

  matches : (pid : ℤ) (t : String) → Inspects (process_matches o.kernel pid t)
  matches pid t =
      Raises-weaken _ (look-IsInspectError o.kernel) (process_matches-Looks o.kernel pid t)

  exists :
      (pid : ℤ) (t : String) (c : ℤ) (ct : String)
      → Inspects (owned_tree_exists o.kernel pid t c ct)
  exists pid t c ct =
      Raises-weaken _ (look-IsInspectError o.kernel) (owned_tree_exists-Looks o.kernel pid t c ct)

  ask_addon-Inspects :
      (component name : String) (r : SessionRecord) → Inspects (ask_addon o component name r)
  unfolding ask_addon
  ask_addon-Inspects component name r = search (raises_rules, twice, unsaved_if-Inspects)

  after_assessment-Inspects :
      (component name : String) (r : SessionRecord) (a : Assessment)
      → Inspects (after_assessment o component name r a)
  unfolding after_assessment
  after_assessment-Inspects component name r (settled i) = Raises-pure i
  after_assessment-Inspects component name r ask_socket = ask_addon-Inspects component name r

  inspect_record-Inspects :
      (component name : String) (launching : Bool) (r : Result SessionRecord)
      → Allowed IsReadError r
      → Inspects (inspect_record o component name launching r)
  unfolding inspect_record
  inspect_record-Inspects component name launching (err e) h =
      Raises-either (is_record_failure e) _ _ (Raises-pure _)
        (Raises-throw e (read-IsInspectError e h))
  inspect_record-Inspects component name launching (ok r) h =
      search (raises_rules, matches, exists, after_assessment-Inspects, marker-Allowed)

  pub inspect_file-Raises :
      (component name : String) (f : RecordFile)
      → Raises IsInspectError (inspect_file o component name f)
  unfolding inspect_file
  inspect_file-Raises component name nothing = Raises-pure _
  inspect_file-Raises component name (found launching file) =
      inspect_record-Inspects component name launching (read_record o.sha256 file)
        (read_record-Allowed o.sha256 file)
