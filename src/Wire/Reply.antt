-- ===== src/Wire/Reply.antt =====
-- What src/blendersessiond/wire.py makes of the JSON that the addon sends back: the envelope of
-- `call_addon`, and the text that `query_unsaved_changes` gets.
use blendersessiond.Base.{
  String, Bool, true, false, Option, none, some, str_eq, strip, if◌then◌else◌,
}
use blendersessiond.Json.{Json, null, bool, str, obj, Fields, get}
use blendersessiond.Exec.{Result, ok, err, wire_error, addon_error}
use blendersessiond.Wire.Receive.{protocol_failure}

abbrev or_null : Option Json → Json
or_null none = null
or_null (some v) = v

-- The text, if the value is a string that is not empty.
unfoldable pub nonempty_text : Option Json → Option String
nonempty_text (some (str s)) = if str_eq s "" then none else some s
nonempty_text _ = none

or_unknown : Option String → String
or_unknown none = "Unknown addon error."
or_unknown (some m) = m

-- A result that is an object with a text under "error" is a failure too.
unwrap : Json → Result Json
unwrap (obj fields) = elim (nonempty_text (get "error" fields)) [
  | some m ↦ err (wire_error addon_error m)
  | none ↦ ok (obj fields)
]
unwrap other = ok other

-- `status == text` for a value of any type.
unfoldable pub is_text : Option Json → String → Bool
is_text (some (str s)) t = str_eq s t
is_text _ t = false

unfoldable pub interpret : Json → Result Json
unfolding or_unknown unwrap
interpret (obj response) =
    if is_text (get "status" response) "error"
    then err (wire_error addon_error (or_unknown (nonempty_text (get "message" response))))
    else if is_text (get "status" response) "success"
    then unwrap (or_null (get "result" response))
    else err (protocol_failure "Addon response has no recognized success or error status.")
interpret other = err (protocol_failure "Addon response must be a JSON object.")

read_flag : String → Result Bool
read_flag output =
    let normalized = strip output in
    if str_eq normalized "true"
    then ok true
    else if str_eq normalized "false"
    then ok false
    else err (protocol_failure "Addon returned an unrecognized unsaved-changes query output.")

read_output : Option Json → Result Bool
unfolding read_flag
read_output (some (str output)) = read_flag output
read_output _ = err (protocol_failure "Addon returned an invalid unsaved-changes query output.")

read_executed : Option Json → Fields → Result Bool
unfolding read_output
read_executed (some (bool true)) fields = read_output (get "result" fields)
read_executed _ fields =
    err (protocol_failure "Addon returned an invalid unsaved-changes query result.")

-- The end of `query_unsaved_changes`.
unfoldable pub unsaved_changes : Json → Result Bool
unfolding read_executed
unsaved_changes (obj fields) = read_executed (get "executed" fields) fields
unsaved_changes other =
    err (protocol_failure "Addon returned an invalid unsaved-changes query result.")
