-- ===== src/Sessions/Failures.antt =====
-- With what `stop_session` of src/blendersessiond/sessions.py can fail: its assertion holds.
use blendersessiond.Base.{
  arith, String, ◌≡◌, Bool, true, false, not, Option, none, some, if◌then◌else◌,
}
use blendersessiond.Exec.{
  World, M, Result, ok, err, Error, value_error, session_error, os_error, runtime_error, throw,
  continue, ◌>>=◌,
}
use blendersessiond.Exec.Raises.{
  Allowed, Raises, Raises-weaken, Raises-throw, Raises-lift, Raises-pure, Raises-bind, Raises-if,
  Raises-reads, Raises-file_lock, raises_rules,
}
use blendersessiond.Exec.Ends.{Ends, Ended}
use blendersessiond.Processes.Kernel.{Kernel}
use blendersessiond.Processes.Failures.{IsTerminationError, terminate_owned_tree-Raises}
use blendersessiond.Sessions.Name.{validate_session_name, validate_session_id}
use blendersessiond.Sessions.Record.{SessionRecord, is_record_failure}
use blendersessiond.Sessions.Unreadable.{IsReadError, current_record-Allowed}
use blendersessiond.Sessions.Disk.{Store}
use blendersessiond.Sessions.Inspection.{SessionInspection, is_healthy}
use blendersessiond.Sessions.Inspect.{Outside, session_directory, inspect_unlocked}
use blendersessiond.Sessions.Launch.{Launcher, remove_record_files}
use blendersessiond.Sessions.Fence.{
  identity_mismatch, require_if_read, require_session_identity, require_current_session_identity,
}
use blendersessiond.Sessions.InspectFailures.{IsInspectError, inspect_file-Raises}
use blendersessiond.Sessions.Coherent.{Coherent, inspect_unlocked-Ends}
use blendersessiond.Sessions.Stop.{
  not_stopped, end_session, stop_live, stop_stale, stop_recorded, stop_inspected, stop_locked,
  stop_in, stop_session,
}

-- A refused argument or identity, or an `OSError`, `ValueError` or `RuntimeError` of the inspection
-- or of the termination.
abbrev pub IsStopError : Error → Type 0
IsStopError (value_error _) = Unit
IsStopError (session_error _) = Unit
IsStopError (os_error _) = Unit
IsStopError (runtime_error _) = Unit
IsStopError _ = ⊥

termination-IsStopError :
    {S : Type 0} (k : Kernel S) (e : Error) → IsTerminationError k e → IsStopError e
termination-IsStopError k (os_error m) h = tt
termination-IsStopError k (value_error m) h = tt
termination-IsStopError k (runtime_error m) h = tt
termination-IsStopError k _ h = absurd h

read-IsStopError : (e : Error) → IsReadError e → IsStopError e
read-IsStopError (os_error m) h = tt
read-IsStopError (value_error m) h = tt
read-IsStopError (runtime_error m) h = tt
read-IsStopError _ h = absurd h

inspect-IsStopError : (e : Error) → IsInspectError e → IsStopError e
inspect-IsStopError (os_error m) h = tt
inspect-IsStopError (value_error m) h = tt
inspect-IsStopError (runtime_error m) h = tt
inspect-IsStopError _ h = absurd h

module _ {S D A B : Type 0} {E : Error → Type 0} {P : A → Type 0} where
  -- What the first part returns satisfies `P`.
  Raises-then :
      (m : M S D A) (f : A → M S D B)
      → Raises E m
      → Ends (λ a _. P a) m
      → ((a : A) → P a → Raises E (f a))
      → Raises E (m >>= f)
  unfolding ◌>>=◌
  Raises-then m f hm he hf = record { run = λ w. go (m w) (hm.run w) (he.run w) }
    where
      go :
          (o : Result A × World S D)
          → Allowed E o.0
          → Ended (λ a _. P a) o
          → Allowed E (continue o f).0
      go (ok a, w) q p = (hf a p).run w
      go (err e, w) q p = q

name-Allowed : (name : String) → Allowed IsStopError (validate_session_name name)
unfolding validate_session_name
name-Allowed name = ground arith

id-Allowed : (id : String) → Allowed IsStopError (validate_session_id id)
unfolding validate_session_id
id-Allowed id = ground arith

directory-Allowed : (name : String) → Allowed IsStopError (session_directory name)
unfolding session_directory validate_session_name
directory-Allowed name = ground arith

module _ {S : Type 0} (o : Outside S) (l : Launcher S) where
  abbrev Fails : {A : Type 0} → M S Store A → Type 0
  Fails m = Raises IsStopError m

  either-Fails :
      {A : Type 0} (b : Bool) (m n : M S Store A) → Fails m → Fails n → Fails (if b then m else n)
  either-Fails b m n hm hn = Raises-if b m n (λ _. hm) (λ _. hn)

  mismatch-Fails : {A : Type 0} (text : String) → Fails (throw {A = A} (session_error text))
  mismatch-Fails text = Raises-throw _ tt

  required-Raises :
      (r : Result SessionRecord) (expected : String)
      → Allowed IsReadError r
      → Fails (require_if_read r expected)
  unfolding require_if_read require_session_identity
  required-Raises (ok r) expected h =
      search (raises_rules, either-Fails, mismatch-Fails (identity_mismatch r.name))
  required-Raises (err e) expected h =
      either-Fails (is_record_failure e) _ _ (Raises-pure tt)
        (Raises-throw e (read-IsStopError e h))

  fence-Raises :
      (component expected : String)
      → Fails (require_current_session_identity o.sha256 component expected)
  unfolding require_current_session_identity
  fence-Raises component expected =
      Raises-bind _ _ (Raises-reads _)
        λ file. required-Raises _ expected (current_record-Allowed o.sha256 file)

  inspect-Raises : (name : String) → Fails (inspect_unlocked o name)
  unfolding inspect_unlocked
  inspect-Raises name = Raises-bind _ _ (Raises-lift _ (directory-Allowed name)) λ component.
      Raises-bind _ _ (Raises-reads _)
        λ file. Raises-weaken _ inspect-IsStopError (inspect_file-Raises o component name file)

  remove-Raises : (component : String) → Fails (remove_record_files o l component)
  unfolding remove_record_files
  remove-Raises component = search raises_rules

  stop_live-Raises :
      (component name : String) (r : SessionRecord) → Fails (stop_live o l component name r)
  unfolding stop_live end_session
  stop_live-Raises component name r =
      Raises-bind _ _
        (Raises-file_lock _ _ (
          Raises-bind _ _
            (Raises-weaken _ (termination-IsStopError o.kernel)
              (terminate_owned_tree-Raises o.kernel _ _ _ _))
            (λ _. remove-Raises component)))
        λ _. Raises-pure _

  stop_stale-Raises :
      (component : String) (i : SessionInspection) → Fails (stop_stale o l component i)
  unfolding stop_stale
  stop_stale-Raises component i = search (raises_rules, remove-Raises)

  stop_inspected-Raises :
      (component name : String) (i : SessionInspection) (r : Option SessionRecord)
      → Coherent i
      → Fails (stop_inspected o l component name i r)
  unfolding stop_inspected stop_recorded
  stop_inspected-Raises component name i none h = Raises-pure _
  stop_inspected-Raises component name i (some r) h =
      Raises-if _ _ _ (λ _. stop_live-Raises component name r)
        λ (kept : i.stoppable ≡ false).
          Raises-if _ _ _
            (λ (well : is_healthy i.status ≡ true). absurd (apart (h.healthy_stoppable well) kept))
            (λ (_ : is_healthy i.status ≡ false).
              either-Fails (not i.reclaimable) _ _ (Raises-pure (not_stopped i _))
                (stop_stale-Raises component i))
    where
      apart : i.stoppable ≡ true → i.stoppable ≡ false → ⊥
      apart yes_it no_it = cc

  stop_locked-Raises :
      (component name expected : String) → Fails (stop_locked o l component name expected)
  unfolding stop_locked
  stop_locked-Raises component name expected =
      Raises-bind _ _ (fence-Raises component expected) λ _.
        Raises-then _ _ (inspect-Raises name) (inspect_unlocked-Ends o name)
          λ i h. stop_inspected-Raises component name i i.session h

  -- A stop returns, or raises a `ValueError`, a `SessionError`, an `OSError` or a `RuntimeError`:
  -- the assertion that healthy Sessions are stoppable never fails.
  pub stop_session-Raises :
      (name expected : String) → Raises IsStopError (stop_session o l name expected)
  unfolding stop_session stop_in
  stop_session-Raises name expected = Raises-bind _ _ (Raises-lift _ (name-Allowed name)) λ _.
      Raises-bind _ _ (Raises-lift _ (id-Allowed expected)) λ _.
        Raises-bind _ _ (Raises-lift _ (directory-Allowed name)) λ component.
          Raises-bind _ _ (Raises-reads _) λ there.
            Raises-if _ _ _
              (λ (_ : there ≡ true).
                Raises-file_lock _ _ (stop_locked-Raises component name expected))
              (λ (_ : there ≡ false). Raises-pure _)
