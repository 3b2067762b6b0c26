-- ===== src/Sessions/Inspect.antt =====
-- `_inspect_unlocked` of src/blendersessiond/sessions.py.
use blendersessiond.Base.{ℕ, ℤ, pos, negsuc, String, Bool, Option, none, some, if◌then◌else◌}
use blendersessiond.Exec.{Result, ok, err, M, wire_lock, pure, throw, lift, reads, file_lock, ◌>>=◌}
use blendersessiond.Wire.Client.{Network, catch_wire, probe_addon, query_unsaved_changes}
use blendersessiond.Processes.Kernel.{Kernel}
use blendersessiond.Processes.Identity.{process_matches}
use blendersessiond.Processes.Tree.{owned_tree_exists}
use blendersessiond.Sessions.Name.{validate_session_name, hex}
use blendersessiond.Sessions.Record.{SessionRecord, Digest, read_record, is_record_failure}
use blendersessiond.Sessions.Disk.{Store, RecordFile, nothing, found, record_file, ownership_file}
use blendersessiond.Sessions.Inspection.{
  SessionInspection, not_found_inspection, unreadable_inspection, Assessment, settled, ask_socket,
  token_matches, assess, probed,
}

-- The outside of the program: the operating system, the addon's socket, and SHA-256.
pub record Outside (S : Type 0) : Type 0 where
  pub kernel : Kernel S
  pub network : Network S
  pub sha256 : Digest

abbrev pub component_of : Result String → Result String
component_of (ok name) = ok (hex name)
component_of (err e) = err e

-- `session_directory(state_root, name)`: the directory's name.
unfoldable pub session_directory : String → Result String
session_directory name = component_of (validate_session_name name)

abbrev pub port_number : ℤ → ℕ
port_number (pos n) = n
port_number (negsuc n) = 0

module _ {S : Type 0} (o : Outside S) where
  open o use {kernel, network, sha256}

  unfoldable pub unsaved_if : Bool → ℕ → M S Store (Option Bool)
  unsaved_if healthy port =
      if healthy
      then catch_wire (do flag ← query_unsaved_changes network port; pure (some flag))
          (λ r m. pure none)
      else pure none

  -- The addon is asked under the Session's wire lock.
  unfoldable pub ask_addon : String → String → SessionRecord → M S Store SessionInspection
  ask_addon component name r = file_lock (wire_lock component) (do
    probe ← probe_addon network (port_number r.mcp_port) 2
    unsaved ← unsaved_if probe.healthy (port_number r.mcp_port)
    pure (probed name r probe unsaved))

  unfoldable pub after_assessment :
      String → String → SessionRecord → Assessment → M S Store SessionInspection
  after_assessment component name r (settled inspection) = pure inspection
  after_assessment component name r ask_socket = ask_addon component name r

  unfoldable pub inspect_record :
      String → String → Bool → Result SessionRecord → M S Store SessionInspection
  inspect_record component name launching (err e) =
      if is_record_failure e then pure (unreadable_inspection name e) else throw e
  inspect_record component name launching (ok r) = do
    marker ← reads (ownership_file component)
    token_ok ← lift (token_matches marker r)
    root_matches ← process_matches kernel r.pid r.process_start_time
    tree_exists ←
        owned_tree_exists kernel r.pid r.process_start_time r.controller_pid r.controller_start_time
    after_assessment component name r (assess name r launching token_ok root_matches tree_exists)

  unfoldable pub inspect_file : String → String → RecordFile → M S Store SessionInspection
  inspect_file component name nothing = pure (not_found_inspection name)
  inspect_file component name (found launching file) =
      inspect_record component name launching (read_record sha256 file)

  unfoldable pub inspect_unlocked : String → M S Store SessionInspection
  inspect_unlocked name = do
    component ← lift (session_directory name)
    file ← reads (record_file component)
    inspect_file component name file
