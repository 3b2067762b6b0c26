-- ===== src/Wire/Failures.antt =====
-- With what the client and the Health probe of src/blendersessiond/wire.py can fail.
use blendersessiond.Base.{
  ℕ, zero, suc, ◌≤◌, ◌<◌, ◌≡◌, refl, String, Option, none, some, List, [], ◌++◌, ◌∷◌, arith, ltb,
  true, ltb→lt,
}
use blendersessiond.Json.{Json, Fields}
use blendersessiond.Exec.{
  Reason, Error, Result, ok, err, M, wire_error, timeout_error, os_error, value_error,
  runtime_error,
}
use blendersessiond.Exec.Raises.{
  Allowed, Raises, Raises-pure, Raises-throw, Raises-lift, Raises-if, Raises-bind, Raises-catch,
  Raises-system, Raises-emit,
}
use blendersessiond.Wire.Utf8.{Decoded, text, truncated, invalid, decode}
use blendersessiond.Wire.Receive.{
  Stream, eof, recv_timed_out, recv_failed, chunk, Loaded, loaded, no_json, refused, too_deep,
  read_on, judge, attempt, receive_json,
}
use blendersessiond.Wire.Reply.{interpret, unsaved_changes}
use blendersessiond.Wire.Client.{
  Network, Connected, Sent, connected, connect_timed_out, connect_failed, sent, send_timed_out,
  send_failed, validate_timeout, connect_outcome, received, translate, call_addon, catch_wire,
  probe_loop, probe_addon, query_unsaved_changes, on_wire_error, unsuccessful, max_connect_timeout,
  max_read_timeout,
}

-- `json.loads` refuses a text with this `ValueError`, which is no `JSONDecodeError`.
pub record Refused (loads : List ℕ → Loaded) (m : String) : Type 0 where
  pub characters : List ℕ
  pub fails : loads characters ≡ refused m

-- `json.loads` ends on a text with this `RecursionError`.
pub record TooDeep (loads : List ℕ → Loaded) (m : String) : Type 0 where
  pub characters : List ℕ
  pub fails : loads characters ≡ too_deep m

-- An exception of `json.loads` that the client does not catch.
abbrev pub IsJsonError : (List ℕ → Loaded) → Error → Type 0
IsJsonError loads (value_error m) = Refused loads m
IsJsonError loads (runtime_error m) = TooDeep loads m
IsJsonError loads _ = ⊥

-- A `WireError`, or such an exception.
abbrev pub IsCallError : (List ℕ → Loaded) → Error → Type 0
IsCallError loads (wire_error _ _) = Unit
IsCallError loads e = IsJsonError loads e

-- What the loop itself can raise.
abbrev IsReceiveError : (List ℕ → Loaded) → Error → Type 0
IsReceiveError loads (timeout_error _) = Unit
IsReceiveError loads (os_error _) = Unit
IsReceiveError loads e = IsCallError loads e

module _ (loads : List ℕ → Loaded) where
  abbrev AllowedVerdict : Option (Result Json) → Type 0
  AllowedVerdict none = Unit
  AllowedVerdict (some r) = Allowed (IsReceiveError loads) r

  verdict-raises :
      (o : Option (Result Json)) (again : Result Json)
      → AllowedVerdict o
      → Allowed (IsReceiveError loads) again
      → Allowed (IsReceiveError loads) (elim o [ some r ↦ r | none ↦ again ])
  verdict-raises none again ho ha = ha
  verdict-raises (some r) again ho ha = ho

  -- The verdict on a text by what `json.loads` does with it.
  read_on-raises : (cs : List ℕ) (o : Loaded) → loads cs ≡ o → AllowedVerdict (read_on o)
  unfolding read_on
  read_on-raises cs (loaded v) e = tt
  read_on-raises cs no_json e = tt
  read_on-raises cs (refused m) e = record { characters = cs; fails = e }
  read_on-raises cs (too_deep m) e = record { characters = cs; fails = e }

  judge-raises : (d : Decoded) → AllowedVerdict (judge loads d)
  unfolding judge
  judge-raises truncated = tt
  judge-raises invalid = tt
  judge-raises (text t) = read_on-raises t (loads t) refl

  receive_json-raises :
      (sofar : List ℕ) (s : Stream) → Allowed (IsReceiveError loads) (receive_json loads sofar s)
  unfolding receive_json attempt
  receive_json-raises [] eof = tt
  receive_json-raises (b ∷ bs) eof = tt
  receive_json-raises sofar recv_timed_out = tt
  receive_json-raises sofar (recv_failed m) = tt
  receive_json-raises sofar (chunk b bs rest) =
      verdict-raises (attempt loads (sofar ++ (b ∷ bs)))
        (receive_json loads (sofar ++ (b ∷ bs)) rest) (judge-raises (decode (sofar ++ (b ∷ bs))))
        (receive_json-raises (sofar ++ (b ∷ bs)) rest)

  received-raises : (s : Sent) → Allowed (IsReceiveError loads) (received loads s)
  unfolding received
  received-raises (sent s) = receive_json-raises [] s
  received-raises send_timed_out = tt
  received-raises (send_failed m) = tt

translate-raises :
    (loads : List ℕ → Loaded) (port : ℕ) (r : Result Json)
    → Allowed (IsReceiveError loads) r
    → Allowed (IsCallError loads) (translate port r)
unfolding translate
translate-raises loads port (ok j) h = tt
translate-raises loads port (err (wire_error r m)) h = tt
translate-raises loads port (err (timeout_error m)) h = tt
translate-raises loads port (err (os_error m)) h = tt
translate-raises loads port (err (value_error m)) h = h
translate-raises loads port (err (Error.type_error m)) h = elim h [ ]
translate-raises loads port (err (runtime_error m)) h = h
translate-raises loads port (err (Error.assertion_error m)) h = elim h [ ]
translate-raises loads port (err (Error.session_error m)) h = elim h [ ]
translate-raises loads port (err (Error.already_running m)) h = elim h [ ]
translate-raises loads port (err (Error.setup_error m)) h = elim h [ ]
translate-raises loads port (err (Error.attempt_conflict m)) h = elim h [ ]
translate-raises loads port (err (Error.subprocess_error m)) h = elim h [ ]

module _ (loads : List ℕ → Loaded) where
  connect_outcome-raises :
      (port : ℕ) (c : Connected) → Allowed (IsCallError loads) (connect_outcome port c)
  unfolding connect_outcome
  connect_outcome-raises port connected = tt
  connect_outcome-raises port connect_timed_out = tt
  connect_outcome-raises port (connect_failed m) = tt

  interpret-raises : (j : Json) → Allowed (IsCallError loads) (interpret j)
  unfolding interpret
  interpret-raises j = ground arith

  unsaved_changes-raises : (j : Json) → Allowed (IsCallError loads) (unsaved_changes j)
  unfolding unsaved_changes
  unsaved_changes-raises j = ground arith

validate_timeout-ok :
    (label : String) (t maximum : ℕ)
    → 0 < t
    → t ≤ maximum
    → validate_timeout label t maximum ≡ ok tt
unfolding validate_timeout
validate_timeout-ok label t maximum p q = ground arith

Allowed-of_ok : {A : Type 0} (E : Error → Type 0) (r : Result A) (a : A) → r ≡ ok a → Allowed E r
Allowed-of_ok E r a e = rw e tt

module _ {S D A : Type 0} {E : Error → Type 0} (loads : List ℕ → Loaded) where
  pub Raises-catch_wire :
      (m : M S D A) (handler : Reason → String → M S D A)
      → ((e : Error) → IsJsonError loads e → E e)
      → Raises (IsCallError loads) m
      → ((r : Reason) (text : String) → Raises E (handler r text))
      → Raises E (catch_wire m handler)
  unfolding catch_wire
  Raises-catch_wire m handler others hm hh = Raises-catch _ _ hm handled
    where
      handled : (e : Error) → IsCallError loads e → Raises E (on_wire_error handler e)
      handled (wire_error r m') h = hh r m'
      handled (value_error m') h = Raises-throw _ (others (value_error m') h)
      handled (runtime_error m') h = Raises-throw _ (others (runtime_error m') h)
      handled _ h = absurd h

module _ {S D : Type 0} (net : Network S) where
  -- With timeouts in range a call returns, or raises a `WireError`, or the `ValueError` or
  -- `RecursionError` with which `json.loads` refuses a text.
  pub call_addon-Raises :
      (port : ℕ) (command : String) (params : Option Fields) (connect_timeout read_timeout : ℕ)
      → 0 < connect_timeout
      → connect_timeout ≤ max_connect_timeout
      → 0 < read_timeout
      → read_timeout ≤ max_read_timeout
      → Raises {D = D}
          (IsCallError net.loads)
          (call_addon net port command params connect_timeout read_timeout)
  unfolding call_addon
  call_addon-Raises port command params ct rt c0 c1 r0 r1 =
      Raises-bind _ _
        (Raises-lift _ (Allowed-of_ok _ _ tt (validate_timeout-ok "Connect" ct _ c0 c1)))
        λ _.
          Raises-bind _ _
            (Raises-lift _ (Allowed-of_ok _ _ tt (validate_timeout-ok "Read" rt _ r0 r1)))
            λ _. Raises-bind _ _ (Raises-emit _) λ _. Raises-bind _ _ (Raises-system _) λ c.
              Raises-bind _ _ (Raises-lift _ (connect_outcome-raises net.loads port c)) λ _.
                Raises-bind _ _ (Raises-system _) λ s.
                  Raises-bind _ _
                    (Raises-lift _
                      (translate-raises net.loads port _ (received-raises net.loads s)))
                    λ j. Raises-lift _ (interpret-raises net.loads j)

  -- The query of the file-dirty flag returns a flag, or raises a `WireError`, or the `ValueError` or
  -- `RecursionError` with which `json.loads` refuses a text.
  pub query_unsaved_changes-Raises :
      (port : ℕ) → Raises {D = D} (IsCallError net.loads) (query_unsaved_changes net port)
  unfolding query_unsaved_changes
  query_unsaved_changes-Raises port =
      Raises-bind _ _
        (call_addon-Raises port _ _ _ _ (omega arith) (omega arith) (omega arith) (omega arith))
        λ j. Raises-lift _ (unsaved_changes-raises net.loads j)

  attempt-Raises :
      (port left : ℕ) (last : Option (Reason × String))
      → ((r : Reason) (m : String)
          → Raises {D = D} (IsJsonError net.loads) (probe_loop net port left (some (r, m))))
      → Raises {D = D} (IsJsonError net.loads) (probe_loop net port (suc left) last)
  unfolding probe_loop
  attempt-Raises port left last again =
      Raises-catch_wire net.loads _ _ (λ e h. h)
        (Raises-bind _ _
          (call_addon-Raises port _ _ _ _ (omega arith) (omega arith) (omega arith) (omega arith))
          λ _. Raises-pure _)
        again

  failed_loop-Raises :
      (port left : ℕ) (r : Reason) (m : String)
      → Raises {D = D} (IsJsonError net.loads) (probe_loop net port left (some (r, m)))
  unfolding unsuccessful probe_loop
  failed_loop-Raises port zero r m = Raises-lift _ tt
  failed_loop-Raises port (suc left) r m =
      attempt-Raises port left (some (r, m)) (failed_loop-Raises port left)

  -- With at least one attempt the Health probe returns a result whatever the addon does, unless
  -- `json.loads` refuses a text with a `ValueError` that is no `JSONDecodeError` or with a
  -- `RecursionError`, which it then raises.
  pub probe_addon-Raises :
      (port attempts : ℕ)
      → 0 < attempts
      → Raises {D = D} (IsJsonError net.loads) (probe_addon net port attempts)
  unfolding probe_addon
  probe_addon-Raises port zero h = elim h [ ]
  probe_addon-Raises port (suc n) h =
      Raises-if _ _ _ (λ (e : ltb (suc n) 1 ≡ true). absurd (omega (arith, ltb→lt (suc n) 1 e)))
        (λ _. attempt-Raises port n none (failed_loop-Raises port n))
