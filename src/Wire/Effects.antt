-- ===== src/Wire/Effects.antt =====
-- What the functions of src/blendersessiond/wire.py do to a state, but for the operating system's
-- own: they add requests to the effects.
use blendersessiond.Base.{ℕ, zero, suc, ◌∷◌, String, Option, some}
use blendersessiond.Json.{Fields}
use blendersessiond.Exec.{World, M, Reason, Error, wire_error, requested, emit}
use blendersessiond.Exec.Keeps.{
  Keeps, IgnoresOs, keeps_rules, Keeps-system, Keeps-emit, Keeps-catch, Keeps-throw,
}
use blendersessiond.Wire.Client.{
  Network, call_addon, on_wire_error, catch_wire, probe_loop, probe_addon, query_unsaved_changes,
}

module _ {S D A : Type 0} {P : World S D → Type 0} where
  on_wire_error-keeps :
      (handler : Reason → String → M S D A)
      → ((r : Reason) (text : String) → Keeps P (handler r text))
      → (e : Error) → Keeps P (on_wire_error handler e)
  unfolding on_wire_error
  on_wire_error-keeps handler h (wire_error r m) = h r m
  on_wire_error-keeps handler h _ = Keeps-throw _

  pub catch_wire-keeps :
      (m : M S D A) (handler : Reason → String → M S D A)
      → Keeps P m
      → ((r : Reason) (text : String) → Keeps P (handler r text))
      → Keeps P (catch_wire m handler)
  unfolding catch_wire
  catch_wire-keeps m handler km kh = Keeps-catch _ _ km (on_wire_error-keeps handler kh)

module _ {S D : Type 0} (P : World S D → Type 0) (blind : IgnoresOs P)
    (asks : (port : ℕ) (command : String) (w : World S D)
      → P w
      → P (record w { events = requested port command ∷ w.events }))
    (net : Network S) where
  ask-keeps : (port : ℕ) (command : String) → Keeps P (emit (requested port command))
  ask-keeps port command = Keeps-emit _ (asks port command)

  pub call_addon-keeps :
      (port : ℕ) (command : String) (params : Option Fields) (ct rt : ℕ)
      → Keeps P (call_addon net port command params ct rt)
  unfolding call_addon
  call_addon-keeps port command params ct rt =
      search (keeps_rules, Keeps-system blind, ask-keeps) depth 12

  probe_loop-keeps :
      (port left : ℕ) (last : Option (Reason × String)) → Keeps P (probe_loop net port left last)
  unfolding probe_loop
  probe_loop-keeps port zero last = search keeps_rules
  probe_loop-keeps port (suc left) last =
      catch_wire-keeps _ _ (search (keeps_rules, call_addon-keeps))
        (λ r m. probe_loop-keeps port left (some (r, m)))

  pub probe_addon-keeps : (port attempts : ℕ) → Keeps P (probe_addon net port attempts)
  unfolding probe_addon
  probe_addon-keeps port attempts = search (keeps_rules, probe_loop-keeps)

  pub query_unsaved_changes-keeps : (port : ℕ) → Keeps P (query_unsaved_changes net port)
  unfolding query_unsaved_changes
  query_unsaved_changes-keeps port = search (keeps_rules, call_addon-keeps)
