-- ===== src/Wire/Receive.antt =====
-- `_receive_json` of src/blendersessiond/wire.py. What the peer sends is a `Stream`: what one
-- `recv` after the other returns, up to the call that returns no bytes or raises.
use blendersessiond.Base.{ℕ, String, Option, none, some, List, [], ◌∷◌, ◌++◌}
use blendersessiond.Json.{Json}
use blendersessiond.Exec.{
  Error, Result, ok, err, wire_error, protocol_error, timeout_error, os_error, value_error,
  runtime_error,
}
use blendersessiond.Wire.Utf8.{Decoded, text, truncated, invalid, decode}

-- A chunk has at least one byte.
pub data Stream : Type 0 where
  eof recv_timed_out : Stream
  recv_failed : String → Stream
  chunk : ℕ → List ℕ → Stream → Stream

abbrev pub protocol_failure : String → Error
protocol_failure m = wire_error protocol_error m

closed : List ℕ → Error
closed [] = protocol_failure "Addon closed the connection before sending a response."
closed (b ∷ bs) = protocol_failure "Addon closed the connection with partial JSON."

-- What `json.loads` does with a text: a value, a `JSONDecodeError`, another `ValueError` (as for an
-- integer with more digits than Python converts), or the `RecursionError` of deep nesting.
pub data Loaded : Type 0 where
  loaded : Json → Loaded
  no_json : Loaded
  refused too_deep : String → Loaded

-- Only a `JSONDecodeError` is caught.
unfoldable pub read_on : Loaded → Option (Result Json)
read_on (loaded value) = some (ok value)
read_on no_json = none
read_on (refused m) = some (err (value_error m))
read_on (too_deep m) = some (err (runtime_error m))

module _ (loads : List ℕ → Loaded) where
  -- What the loop does with the bytes so far: the answer, an error, or `none` to read on.
  unfoldable pub judge : Decoded → Option (Result Json)
  unfolding read_on
  judge truncated = none
  judge invalid = some (err (protocol_failure "Addon response is not valid UTF-8."))
  judge (text t) = read_on (loads t)

  unfoldable pub attempt : List ℕ → Option (Result Json)
  unfolding judge
  attempt payload = judge (decode payload)

  unfoldable pub receive_json : List ℕ → Stream → Result Json
  unfolding closed
  receive_json sofar eof = err (closed sofar)
  receive_json sofar recv_timed_out = err (timeout_error "timed out")
  receive_json sofar (recv_failed m) = err (os_error m)
  receive_json sofar (chunk b bs rest) =
      let payload = sofar ++ (b ∷ bs) in
      let again = receive_json payload rest in elim (attempt payload) [ some r ↦ r | none ↦ again ]
