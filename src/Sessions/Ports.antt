-- ===== src/Sessions/Ports.antt =====
-- `_base_mcp_port` and `_allocate_port` of src/blendersessiond/sessions.py.
use blendersessiond.Base.{
  ℕ, zero, suc, ℤ, pos, negsuc, int_eq, between, String, ◌<>◌, Bool, not, ◌||◌, Option, none, some,
  List, [], ◌∷◌, ◌++◌, any, length, str_eq, if◌then◌else◌, Environ, lookup, python_int,
}
use blendersessiond.Exec.{
  Error, Result, ok, err, M, session_error, value_error, pure, throw, lift, reads, catch, ◌>>=◌,
}
use blendersessiond.Sessions.Name.{component_name}
use blendersessiond.Sessions.Record.{SessionRecord}
use blendersessiond.Sessions.Disk.{Store, Entry, plain, folder}
use blendersessiond.Sessions.Inspection.{SessionInspection, unreadable, is_healthy}
use blendersessiond.Sessions.Inspect.{Outside, session_directory, inspect_unlocked}

abbrev pub base_port_variable : String
base_port_variable = "BLENDERSESSIOND_BASE_MCP_PORT"

abbrev port_or_zero : Option ℤ → ℤ
port_or_zero none = pos 0
port_or_zero (some z) = z

checked_port : String → ℤ → Result ℤ
checked_port raw port =
    if between 1 65535 port
    then ok port
    else err (
        session_error (
          "Cannot allocate an MCP port: " <> base_port_variable <> "='" <> raw
          <> "' is not a port number between 1 and 65535."))

parsed_port : Option String → Result ℤ
unfolding checked_port
parsed_port none = ok (pos 9876)
parsed_port (some raw) = checked_port raw (port_or_zero (python_int raw))

unfoldable pub base_mcp_port : Environ → Result ℤ
unfolding parsed_port
base_mcp_port environ = parsed_port (lookup base_port_variable environ)

-- `port + 1`
abbrev pub succ : ℤ → ℤ
succ (pos n) = pos (suc n)
succ (negsuc zero) = pos 0
succ (negsuc (suc n)) = negsuc n

-- `port in occupied`
abbrev pub occupies : ℤ → List ℤ → Bool
occupies port occupied = any (λ p. int_eq port p) occupied

-- `while port in occupied: port += 1`, on fuel.
unfoldable pub first_free : ℕ → ℤ → List ℤ → ℤ
first_free zero port occupied = port
first_free (suc fuel) port occupied =
    let next = first_free fuel (succ port) occupied in if occupies port occupied then next else port

-- What one inspection adds to the occupied ports, or the refusal to go on.
occupied_by : SessionInspection → Option SessionRecord → Result (List ℤ)
occupied_by inspection (some r) =
    if is_healthy inspection.status || not inspection.reclaimable
    then ok (r.mcp_port ∷ [])
    else ok []
occupied_by inspection none = elim inspection.status [
  | unreadable ↦ err (session_error ("Cannot allocate an MCP port: " <> inspection.message))
  | _ ↦ ok []
]

unfoldable pub taken : SessionInspection → Result (List ℤ)
unfolding occupied_by
taken inspection = occupied_by inspection inspection.session

-- `except (UnicodeDecodeError, ValueError)` around one directory.
unfoldable pub invalid_directory : {S A : Type 0} → Error → M S Store A
invalid_directory (value_error m) = throw (
    session_error
      ("Cannot allocate an MCP port: a Session state directory is invalid (" <> m <> ")."))
invalid_directory other = throw other

module _ {S : Type 0} (o : Outside S) where
  inspect_named : Option String → M S Store SessionInspection
  inspect_named none = throw (value_error "the name is no valid Session Name")
  inspect_named (some name) = inspect_unlocked o name

  unfoldable pub entry_ports : String → String × Entry → M S Store (List ℤ)
  unfolding inspect_named
  entry_ports excluded (component, plain) = pure []
  entry_ports excluded (component, folder d) = if str_eq component excluded then pure [] else do
    inspection ← catch (inspect_named (component_name component)) invalid_directory
    lift (taken inspection)

  -- The loop over `sessions_root.iterdir()`.
  unfoldable pub occupied_ports : String → List (String × Entry) → List ℤ → M S Store (List ℤ)
  occupied_ports excluded [] occupied = pure occupied
  occupied_ports excluded (entry ∷ entries) occupied = do
    ports ← entry_ports excluded entry
    occupied_ports excluded entries (ports ++ occupied)

  unfoldable pub allocate_port : String → Environ → M S Store ℤ
  allocate_port excluding_name environ = do
    excluded ← lift (session_directory excluding_name)
    entries ← reads (λ store. if store.present then store.entries else [])
    occupied ← occupied_ports excluded entries []
    base ← lift (base_mcp_port environ)
    pure (first_free (suc (length occupied)) base occupied)
