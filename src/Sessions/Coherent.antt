-- ===== src/Sessions/Coherent.antt =====
-- The fields of an inspection of src/blendersessiond/sessions.py agree with one another.
use blendersessiond.Base.{
  arith, String, ◌≡◌, refl, Bool, true, false, Option, none, some, if◌then◌else◌,
}
use blendersessiond.Exec.{World, Result, ok, err, M, wire_lock, name_lock}
use blendersessiond.Exec.Ends.{Ends, Ends-pure, Ends-throw, Ends-if, Ends-bind, Ends-file_lock}
use blendersessiond.Wire.Client.{HealthProbe}
use blendersessiond.Sessions.Record.{SessionRecord, read_record}
use blendersessiond.Sessions.Disk.{Store, RecordFile, nothing, found}
use blendersessiond.Sessions.Inspection.{
  SessionInspection, is_healthy, Assessment, settled, ask_socket, assess, probed,
  not_found_inspection, unreadable_inspection, stale_unless, starting_inspection, rootless,
}
use blendersessiond.Sessions.Inspect.{
  Outside, ask_addon, after_assessment, inspect_record, inspect_file, inspect_unlocked,
}
use blendersessiond.Sessions.Lifecycle.{inspect_session}

abbrev pub has_session : Option SessionRecord → Bool
has_session none = false
has_session (some r) = true

-- A healthy Session is alive and stoppable; one that is stoppable has a record and is not
-- reclaimable; one that is reclaimable has a record.
pub record Coherent (i : SessionInspection) : Type 0 where
  pub healthy_alive : is_healthy i.status ≡ true → i.process_alive ≡ true
  pub healthy_stoppable : is_healthy i.status ≡ true → i.stoppable ≡ true
  pub stoppable_kept : i.stoppable ≡ true → i.reclaimable ≡ false
  pub stoppable_recorded : i.stoppable ≡ true → has_session i.session ≡ true
  pub reclaimable_recorded : i.reclaimable ≡ true → has_session i.session ≡ true

not_found-Coherent : (name : String) → Coherent (not_found_inspection name)
unfolding not_found_inspection
not_found-Coherent name = record {
  healthy_alive = λ h. cc;
  healthy_stoppable = λ h. cc;
  stoppable_kept = λ h. cc;
  stoppable_recorded = λ h. cc;
  reclaimable_recorded = λ h. cc;
}

unreadable-Coherent :
    (name : String) (e : blendersessiond.Exec.Error) → Coherent (unreadable_inspection name e)
unfolding unreadable_inspection
unreadable-Coherent name e = record {
  healthy_alive = λ h. cc;
  healthy_stoppable = λ h. cc;
  stoppable_kept = λ h. cc;
  stoppable_recorded = λ h. cc;
  reclaimable_recorded = λ h. cc;
}

probed-Coherent :
    (name : String) (r : SessionRecord) (p : HealthProbe) (u : Option Bool)
    → Coherent (probed name r p u)
unfolding probed
probed-Coherent name r p u = record {
  healthy_alive = λ h. ground arith;
  healthy_stoppable = λ h. ground arith;
  stoppable_kept = λ h. ground arith;
  stoppable_recorded = λ h. ground arith;
  reclaimable_recorded = λ h. ground arith;
}

abbrev WhenSettled : Assessment → Type 0
WhenSettled (settled i) = Coherent i
WhenSettled ask_socket = Unit

record SettledCoherent (a : Assessment) : Type 0 where
  when_settled : WhenSettled a

stale_unless-Coherent :
    (name : String) (r : SessionRecord) (tree_exists : Bool) (text : String)
    → Coherent (stale_unless name r tree_exists text)
unfolding stale_unless
stale_unless-Coherent name r tree_exists text = record {
  healthy_alive = λ h. ground arith;
  healthy_stoppable = λ h. ground arith;
  stoppable_kept = λ h. ground arith;
  stoppable_recorded = λ h. ground arith;
  reclaimable_recorded = λ h. ground arith;
}

rootless-Coherent :
    (name : String) (r : SessionRecord) (tree_exists : Bool)
    → Coherent (rootless name r tree_exists)
unfolding rootless
rootless-Coherent name r tree_exists = record {
  healthy_alive = λ h. ground arith;
  healthy_stoppable = λ h. ground arith;
  stoppable_kept = λ h. ground arith;
  stoppable_recorded = λ h. ground arith;
  reclaimable_recorded = λ h. ground arith;
}

starting-Coherent : (name : String) (r : SessionRecord) → Coherent (starting_inspection name r)
unfolding starting_inspection
starting-Coherent name r = record {
  healthy_alive = λ h. cc;
  healthy_stoppable = λ h. cc;
  stoppable_kept = λ h. refl;
  stoppable_recorded = λ h. refl;
  reclaimable_recorded = λ h. refl;
}

of_Coherent : {i : SessionInspection} → Coherent i → SettledCoherent (settled i)
of_Coherent h = record { when_settled = h }

asked-SettledCoherent : SettledCoherent ask_socket
asked-SettledCoherent = record { when_settled = tt }

either_settled :
    (b : Bool) (x y : Assessment)
    → SettledCoherent x
    → SettledCoherent y
    → SettledCoherent (if b then x else y)
either_settled true x y hx hy = hx
either_settled false x y hx hy = hy

assess-Coherent :
    (name : String) (r : SessionRecord) (launching token_ok root_matches tree_exists : Bool)
    → SettledCoherent (assess name r launching token_ok root_matches tree_exists)
unfolding assess
assess-Coherent name r launching token_ok root_matches tree_exists =
    search
      (
        either_settled, of_Coherent, asked-SettledCoherent, stale_unless-Coherent,
        starting-Coherent, rootless-Coherent,
      )
      depth 9

module _ {S : Type 0} (o : Outside S) where
  abbrev EndsCoherent : M S Store SessionInspection → Type 0
  EndsCoherent m = Ends (λ i _. Coherent i) m

  ask_addon-Ends :
      (component name : String) (r : SessionRecord) → EndsCoherent (ask_addon o component name r)
  unfolding ask_addon
  ask_addon-Ends component name r =
      Ends-file_lock _ _ (λ _ _ _ h. h)
        (Ends-bind _ _ λ p. Ends-bind _ _ λ u. Ends-pure _ (λ _. probed-Coherent name r p u))

  after_assessment-Ends :
      (component name : String) (r : SessionRecord) (a : Assessment)
      → SettledCoherent a
      → EndsCoherent (after_assessment o component name r a)
  unfolding after_assessment
  after_assessment-Ends component name r (settled i) h = Ends-pure i (λ _. h.when_settled)
  after_assessment-Ends component name r ask_socket h = ask_addon-Ends component name r

  inspect_record-Ends :
      (component name : String) (launching : Bool) (r : Result SessionRecord)
      → EndsCoherent (inspect_record o component name launching r)
  unfolding inspect_record
  inspect_record-Ends component name launching (err e) =
      Ends-if _ _ _ (Ends-pure _ (λ _. unreadable-Coherent name e)) (Ends-throw e)
  inspect_record-Ends component name launching (ok r) = Ends-bind _ _ λ marker.
      Ends-bind _ _ λ token_ok. Ends-bind _ _ λ root. Ends-bind _ _ λ tree.
        after_assessment-Ends component name r _
          (assess-Coherent name r launching token_ok root tree)

  inspect_file-Ends :
      (component name : String) (f : RecordFile) → EndsCoherent (inspect_file o component name f)
  unfolding inspect_file
  inspect_file-Ends component name nothing = Ends-pure _ (λ _. not_found-Coherent name)
  inspect_file-Ends component name (found launching file) =
      inspect_record-Ends component name launching (read_record o.sha256 file)

  pub inspect_unlocked-Ends : (name : String) → EndsCoherent (inspect_unlocked o name)
  unfolding inspect_unlocked
  inspect_unlocked-Ends name =
      Ends-bind _ _ λ component. Ends-bind _ _ λ file. inspect_file-Ends component name file

  -- Every inspection that is returned is coherent, from any state and whatever the outside answers.
  pub inspect_session-Coherent : (name : String) → Ends (λ i _. Coherent i) (inspect_session o name)
  unfolding inspect_session
  inspect_session-Coherent name = Ends-bind _ _ λ _. Ends-bind _ _ λ component.
      Ends-bind _ _ λ there.
        Ends-if there _ _ (Ends-file_lock _ _ (λ _ _ _ h. h) (inspect_unlocked-Ends name))
          (Ends-pure _ (λ _. not_found-Coherent name))
