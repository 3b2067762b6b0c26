-- ===== src/Sessions/LockOrder.antt =====
-- The order of the locks in src/blendersessiond/sessions.py: the Session's name lock, the port
-- lock, the Session's wire lock.
use blendersessiond.Base.{ℕ, ◌<◌, arith, ◌∷◌, [], String, Option, none, some, List, All}
use blendersessiond.Json.{Fields}
use blendersessiond.Exec.{
  M, Result, ok, err, Lock, name_lock, wire_lock, ports_lock, file_lock, writes,
}
use blendersessiond.Exec.Keeps.{Keeps, keeps_rules, Keeps-bind, Keeps-writes, Keeps-system}
use blendersessiond.Exec.Locks.{
  rank, Disciplined, Disciplined-os, Disciplined-disk, file_lock-Disciplined,
}
use blendersessiond.Wire.Effects.{call_addon-keeps}
use blendersessiond.Processes.Effects.{terminate_owned_tree-keeps}
use blendersessiond.Sessions.Record.{SessionRecord}
use blendersessiond.Sessions.Disk.{Store}
use blendersessiond.Sessions.Inspection.{SessionInspection}
use blendersessiond.Sessions.Inspect.{Outside, inspect_unlocked}
use blendersessiond.Sessions.Fence.{
  require_session_identity, require_if_read, require_current_session_identity,
}
use blendersessiond.Sessions.Launch.{Launcher, remove_record_files}
use blendersessiond.Sessions.Lifecycle.{inspect_session, call_healthy, call_locked, call_session}
use blendersessiond.Sessions.Stop.{
  end_session, stop_live, stop_stale, stop_recorded, stop_inspected, stop_in, stop_locked,
  stop_session,
}
use blendersessiond.Sessions.Watch.{inspect_unlocked-keeps}

written-keeps :
    {S : Type 0} (locks : List Lock) (f : Store → Store)
    → Keeps (Disciplined {S = S} locks) (writes f)
written-keeps locks f = Keeps-writes f (Disciplined-disk f)

module _ {S : Type 0} (o : Outside S) where
  -- Under locks of a lower rank than the wire lock, an inspection is disciplined.
  pub inspect_unlocked-Disciplined :
      (locks : List Lock)
      → ((component : String) → All (λ k. rank k < rank (wire_lock component)) locks)
      → (name : String) → Keeps (Disciplined locks) (inspect_unlocked o name)
  inspect_unlocked-Disciplined locks below =
      inspect_unlocked-keeps (Disciplined locks)
        (λ component. Disciplined (wire_lock component ∷ locks)) Disciplined-os
        (λ _. Disciplined-os)
        (λ _ port command w h. record { holds = h.holds; ordered = (tt, h.ordered) })
        (λ component body. file_lock-Disciplined (wire_lock component) body (below component)) o

  wire_above_name :
      (component c : String) → All (λ k. rank k < rank (wire_lock c)) (name_lock component ∷ [])
  unfolding rank
  wire_above_name component c = (omega arith, tt)

  ports_above_name :
      (component : String) → All (λ k. rank k < rank ports_lock) (name_lock component ∷ [])
  unfolding rank
  ports_above_name component = (omega arith, tt)

  module _ (component : String) where
    abbrev named : List Lock
    named = name_lock component ∷ []

    inspect_named : (name : String) → Keeps (Disciplined named) (inspect_unlocked o name)
    inspect_named = inspect_unlocked-Disciplined named (wire_above_name component)

    required-keeps :
        (r : Result SessionRecord) (expected : String)
        → Keeps (Disciplined {S = S} named) (require_if_read r expected)
    unfolding require_if_read require_session_identity
    required-keeps (ok r) expected = search keeps_rules
    required-keeps (err e) expected = search keeps_rules

    fence-keeps :
        (expected : String)
        → Keeps
            (Disciplined {S = S} named)
            (require_current_session_identity o.sha256 component expected)
    unfolding require_current_session_identity
    fence-keeps expected = search (keeps_rules, required-keeps)

    call_healthy-keeps :
        (command : String) (params : Option Fields) (t : ℕ) (i : SessionInspection)
        (r : Option SessionRecord)
        → Keeps (Disciplined named) (call_healthy o component command params t i r)
    unfolding call_healthy
    call_healthy-keeps command params t i none = search keeps_rules
    call_healthy-keeps command params t i (some r) = search (
      keeps_rules,
      file_lock-Disciplined,
      wire_above_name component,
      call_addon-keeps (Disciplined (wire_lock component ∷ named)) Disciplined-os
          (λ _ _ w h. record { holds = h.holds; ordered = (tt, h.ordered) }),
    )

    call_locked-keeps :
        (name command : String) (params : Option Fields) (expected : String) (t : ℕ)
        → Keeps (Disciplined named) (call_locked o component name command params expected t)
    unfolding call_locked
    call_locked-keeps name command params expected t =
        search (keeps_rules, fence-keeps, inspect_named, call_healthy-keeps)

    module _ (l : Launcher S) where
      abbrev within : List Lock
      within = ports_lock ∷ named

      remove-keeps : Keeps (Disciplined within) (remove_record_files o l component)
      unfolding remove_record_files
      remove-keeps = Keeps-bind _ _ (written-keeps within _) (λ _. Keeps-system Disciplined-os _)

      end_session-keeps :
          (r : SessionRecord) → Keeps (Disciplined named) (end_session o l component r)
      unfolding end_session
      end_session-keeps r = file_lock-Disciplined ports_lock _ (ports_above_name component) (
          search (
            keeps_rules,
            remove-keeps,
            terminate_owned_tree-keeps (Disciplined within) Disciplined-os o.kernel r.controller_pid
                (λ s w h. record { holds = h.holds; ordered = (tt, h.ordered) })
                (λ tree w h. record { holds = h.holds; ordered = (tt, h.ordered) }),
          ))

      stop_live-keeps :
          (name : String) (r : SessionRecord)
          → Keeps (Disciplined named) (stop_live o l component name r)
      unfolding stop_live
      stop_live-keeps name r = search (keeps_rules, end_session-keeps)

      stop_stale-keeps :
          (i : SessionInspection) → Keeps (Disciplined named) (stop_stale o l component i)
      unfolding stop_stale
      stop_stale-keeps i = search (
        keeps_rules,
        file_lock-Disciplined ports_lock (remove_record_files o l component)
            (ports_above_name component) remove-keeps,
      )

      stop_inspected-keeps :
          (name : String) (i : SessionInspection) (r : Option SessionRecord)
          → Keeps (Disciplined named) (stop_inspected o l component name i r)
      unfolding stop_inspected stop_recorded
      stop_inspected-keeps name i none = search keeps_rules
      stop_inspected-keeps name i (some r) = search (keeps_rules, stop_live-keeps, stop_stale-keeps)

      stop_locked-keeps :
          (name expected : String)
          → Keeps (Disciplined named) (stop_locked o l component name expected)
      unfolding stop_locked
      stop_locked-keeps name expected =
          search (keeps_rules, fence-keeps, inspect_named, stop_inspected-keeps)

    pub name_lock-keeps :
        {A : Type 0} (body : M S Store A)
        → Keeps (Disciplined named) body
        → Keeps (Disciplined []) (file_lock (name_lock component) body)
    name_lock-keeps body h = file_lock-Disciplined (name_lock component) body tt h

  -- From a state without locks a call takes its locks in order and gives every one back, whether it
  -- returns or raises, and whatever the outside answers.
  pub call_session-Disciplined :
      (command : String) (params : Option Fields) (name expected : String) (t : ℕ)
      → Keeps (Disciplined []) (call_session o command params name expected t)
  unfolding call_session
  call_session-Disciplined command params name expected t =
      search (keeps_rules, name_lock-keeps, call_locked-keeps) depth 9

  inspect_session-keeps : (name : String) → Keeps (Disciplined []) (inspect_session o name)
  unfolding inspect_session
  inspect_session-keeps name = search (keeps_rules, name_lock-keeps, inspect_named) depth 9

  -- From a state without locks a stop takes its locks in order and gives every one back, whether it
  -- returns or raises, and whatever the outside answers.
  pub stop_session-Disciplined :
      (l : Launcher S) (name expected : String)
      → Keeps (Disciplined []) (stop_session o l name expected)
  unfolding stop_session stop_in
  stop_session-Disciplined l name expected =
      search (keeps_rules, name_lock-keeps, stop_locked-keeps) depth 9
