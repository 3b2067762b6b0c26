-- ===== src/Wire/Client.antt =====
-- `call_addon`, `probe_addon` and `query_unsaved_changes` of src/blendersessiond/wire.py.
use blendersessiond.Base.{
  ℕ, zero, suc, ◌/◌, String, ◌<>◌, show, Bool, true, false, ◌&&◌, Option, none, some, List, [], ltb,
  leb, if◌then◌else◌,
}
use blendersessiond.Json.{Json, str, obj, Fields, field, end}
use blendersessiond.Exec.{
  Reason, Error, Result, ok, err, M, value_error, assertion_error, wire_error, timeout_error,
  os_error, connection_failed, timeout, requested, pure, throw, lift, system, emit, catch, ◌>>=◌,
  ◌>>◌,
}
use blendersessiond.Wire.Receive.{Stream, Loaded, receive_json}
use blendersessiond.Wire.Reply.{interpret, unsaved_changes}

-- Durations in milliseconds.
abbrev pub max_connect_timeout : ℕ
max_connect_timeout = 180000

abbrev pub max_read_timeout : ℕ
max_read_timeout = 3600000

abbrev pub default_connect_timeout : ℕ
default_connect_timeout = 3000

abbrev pub default_read_timeout : ℕ
default_read_timeout = 180000

abbrev pub health_connect_timeout : ℕ
health_connect_timeout = 500

abbrev pub health_read_timeout : ℕ
health_read_timeout = 2000

abbrev pub loopback_host : String
loopback_host = "127.0.0.1"

abbrev pub unsaved_changes_code : String
unsaved_changes_code = "print(\"true\" if bpy.data.is_dirty else \"false\")"

abbrev pub health_command : String
health_command = "get_polyhaven_status"

pub data Connected : Type 0 where
  connected connect_timed_out : Connected
  connect_failed : String → Connected

pub data Sent : Type 0 where
  sent : Stream → Sent
  send_timed_out : Sent
  send_failed : String → Sent

-- `socket.create_connection`, `sendall` with the answer that `recv` then gives, and `json.loads`.
pub record Network (S : Type 0) : Type 0 where
  pub connect : ℕ → ℕ → S → Connected × S
  pub send : ℕ → Json → ℕ → S → Sent × S
  pub loads : List ℕ → Loaded

unfoldable pub validate_timeout : String → ℕ → ℕ → Result Unit
validate_timeout label duration maximum =
    if ltb 0 duration && leb duration maximum
    then ok tt
    else err (
        value_error (
          label
          <> " timeout must be greater than 0 and no more than "
          <> show (maximum / 1000)
          <> " seconds."))

abbrev pub at_port : ℕ → String
at_port port = "the addon at " <> loopback_host <> ":" <> show port

unfoldable pub connect_outcome : ℕ → Connected → Result Unit
connect_outcome port connected = ok tt
connect_outcome port connect_timed_out =
    err (wire_error timeout ("Timed out connecting to " <> at_port port <> "."))
connect_outcome port (connect_failed m) =
    err (wire_error connection_failed ("Could not connect to " <> at_port port <> ": " <> m <> "."))

unfoldable pub received : (List ℕ → Loaded) → Sent → Result Json
received loads (sent stream) = receive_json loads [] stream
received loads send_timed_out = err (timeout_error "timed out")
received loads (send_failed m) = err (os_error m)

-- The `except` clauses around the exchange; `TimeoutError` is an `OSError`, and stands first.
unfoldable pub translate : ℕ → Result Json → Result Json
translate port (err (timeout_error m)) =
    err (wire_error timeout ("Timed out waiting for " <> at_port port <> "."))
translate port (err (os_error m)) =
    err (wire_error connection_failed ("Connection to " <> at_port port <> " failed: " <> m <> "."))
translate port other = other

-- `params or {}`
abbrev pub or_empty : Option Fields → Fields
or_empty none = end
or_empty (some fields) = fields

module _ {S D : Type 0} (net : Network S) where
  unfoldable pub call_addon : ℕ → String → Option Fields → ℕ → ℕ → M S D Json
  unfolding connect_outcome received translate
  call_addon port command params connect_timeout read_timeout = do
    lift (validate_timeout "Connect" connect_timeout max_connect_timeout)
    lift (validate_timeout "Read" read_timeout max_read_timeout)
    let request = obj (field "type" (str command) (field "params" (obj (or_empty params)) end))
    emit (requested port command)
    reached ← system (net.connect port connect_timeout)
    lift (connect_outcome port reached)
    answer ← system (net.send port request read_timeout)
    response ← lift (translate port (received net.loads answer))
    lift (interpret response)

pub record HealthProbe : Type 0 where
  pub healthy : Bool
  pub reason : String
  pub message : String

abbrev pub healthy_probe : ℕ → HealthProbe
healthy_probe port = record {
  healthy = true;
  reason = "answered";
  message = "Addon socket at " <> loopback_host <> ":" <> show port <> " answered the Health ping.";
}

-- The `reason` attribute of the `WireError` classes.
unfoldable pub reason_text : Reason → String
reason_text Reason.wire_failure = "wire-error"
reason_text Reason.connection_failed = "connection-failed"
reason_text Reason.timeout = "timeout"
reason_text Reason.protocol_error = "protocol-error"
reason_text Reason.addon_error = "addon-error"

unfoldable pub unsuccessful : Option (Reason × String) → Result HealthProbe
unfolding reason_text
unsuccessful none = err (assertion_error "positive probe attempts must produce a result")
unsuccessful (some (r, m)) = ok (record { healthy = false; reason = reason_text r; message = m })

module _ {S D A : Type 0} where
  unfoldable pub on_wire_error : (Reason → String → M S D A) → Error → M S D A
  on_wire_error handler (wire_error r m) = handler r m
  on_wire_error handler other = throw other

  -- `try: m except WireError as error: handler`; another exception goes on.
  unfoldable pub catch_wire : M S D A → (Reason → String → M S D A) → M S D A
  unfolding on_wire_error
  catch_wire m handler = catch m (on_wire_error handler)

module _ {S D : Type 0} (net : Network S) where
  -- The `for` loop: the attempts left, and the last error.
  unfoldable pub probe_loop : ℕ → ℕ → Option (Reason × String) → M S D HealthProbe
  unfolding unsuccessful
  probe_loop port zero last = lift (unsuccessful last)
  probe_loop port (suc left) last =
      catch_wire
        (do
          call_addon net port health_command none health_connect_timeout health_read_timeout
          pure (healthy_probe port))
        (λ r m. probe_loop port left (some (r, m)))

  unfoldable pub probe_addon : ℕ → ℕ → M S D HealthProbe
  probe_addon port attempts =
      if ltb attempts 1
      then throw (value_error "Health probe attempts must be positive.")
      else probe_loop port attempts none

  unfoldable pub query_unsaved_changes : ℕ → M S D Bool
  query_unsaved_changes port = do
    result ←
        call_addon net port "execute_code" (some (field "code" (str unsaved_changes_code) end))
          health_connect_timeout health_read_timeout
    lift (unsaved_changes result)
