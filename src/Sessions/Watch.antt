-- ===== src/Sessions/Watch.antt =====
-- What an inspection of src/blendersessiond/sessions.py does to a state: it takes the Session's
-- wire lock and asks the addon under it.
use blendersessiond.Base.{ℕ, ◌∷◌, String, Bool, true, false}
use blendersessiond.Exec.{World, M, Result, ok, err, wire_lock, requested, file_lock}
use blendersessiond.Exec.Keeps.{Keeps, IgnoresOs, keeps_rules}
use blendersessiond.Processes.Effects.{process_matches-keeps, owned_tree_exists-keeps}
use blendersessiond.Wire.Effects.{probe_addon-keeps, query_unsaved_changes-keeps, catch_wire-keeps}
use blendersessiond.Sessions.Record.{SessionRecord, read_record}
use blendersessiond.Sessions.Disk.{Store, RecordFile, nothing, found}
use blendersessiond.Sessions.Inspection.{SessionInspection, Assessment, settled, ask_socket}
use blendersessiond.Sessions.Inspect.{
  Outside, unsaved_if, ask_addon, after_assessment, inspect_record, inspect_file, inspect_unlocked,
}

-- `Q component` holds under the wire lock, where the addon may be asked; `P` holds outside of it.
module _ {S : Type 0} (P : World S Store → Type 0) (Q : String → World S Store → Type 0)
    (P-blind : IgnoresOs P) (Q-blind : (component : String) → IgnoresOs (Q component))
    (asks : (component : String) (port : ℕ) (command : String) (w : World S Store)
      → Q component w
      → Q component (record w { events = requested port command ∷ w.events }))
    (guarded : (component : String) (body : M S Store SessionInspection)
      → Keeps (Q component) body
      → Keeps P (file_lock (wire_lock component) body))
    (o : Outside S) where
  unsaved_if-keeps :
      (component : String) (healthy : Bool) (port : ℕ)
      → Keeps (Q component) (unsaved_if o healthy port)
  unfolding unsaved_if
  unsaved_if-keeps component true port =
      catch_wire-keeps _ _
        (search (
          keeps_rules,
          query_unsaved_changes-keeps (Q component) (Q-blind component) (asks component),
        ))
        (λ r m. search keeps_rules)
  unsaved_if-keeps component false port = search keeps_rules

  ask_addon-keeps :
      (component name : String) (r : SessionRecord) → Keeps P (ask_addon o component name r)
  unfolding ask_addon
  ask_addon-keeps component name r = guarded component _ (
      search (
        keeps_rules,
        probe_addon-keeps (Q component) (Q-blind component) (asks component),
        unsaved_if-keeps component,
      ))

  after_assessment-keeps :
      (component name : String) (r : SessionRecord) (a : Assessment)
      → Keeps P (after_assessment o component name r a)
  unfolding after_assessment
  after_assessment-keeps component name r (settled i) = search keeps_rules
  after_assessment-keeps component name r ask_socket = ask_addon-keeps component name r

  inspect_record-keeps :
      (component name : String) (launching : Bool) (r : Result SessionRecord)
      → Keeps P (inspect_record o component name launching r)
  unfolding inspect_record
  inspect_record-keeps component name launching (err e) = search keeps_rules
  inspect_record-keeps component name launching (ok r) = search (
    keeps_rules,
    process_matches-keeps P P-blind,
    owned_tree_exists-keeps P P-blind,
    after_assessment-keeps,
  )

  inspect_file-keeps :
      (component name : String) (f : RecordFile) → Keeps P (inspect_file o component name f)
  unfolding inspect_file
  inspect_file-keeps component name nothing = search keeps_rules
  inspect_file-keeps component name (found launching file) =
      inspect_record-keeps component name launching (read_record o.sha256 file)

  pub inspect_unlocked-keeps : (name : String) → Keeps P (inspect_unlocked o name)
  unfolding inspect_unlocked
  inspect_unlocked-keeps name = search (keeps_rules, inspect_file-keeps)
