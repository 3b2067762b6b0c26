-- ===== src/Cli/ExitCodes.antt =====
-- What the exit codes of `stop` and `status` in src/blendersessiond/cli.py tell.
use blendersessiond.Base.{
  ◌≡◌, refl, sym, ◌⊎◌, inl, inr, arith, ℕ, String, Bool, true, false, none, some, if◌then◌else◌,
}
use blendersessiond.Json.{Json, obj}
use blendersessiond.Cli.Views.{failure_dict}
use blendersessiond.Exec.{
  World, Result, ok, err, M, Error, value_error, os_error, runtime_error, message, pure, throw,
  rescue, continue, catch, ◌>>=◌,
}
use blendersessiond.Exec.Ends.{Ended, Ends, Ends-pure, Ends-throw, Ends-if, Ends-then, Ends-catch}
use blendersessiond.Exec.Raises.{
  Allowed, Raises, IsTotal, Raises-pure, Raises-bind, Raises-catch, Raises-if, Raises-lift,
  Raises-reads, Raises-file_lock, Raises-weaken,
}
use blendersessiond.Sessions.Name.{validate_session_name, hex}
use blendersessiond.Sessions.Disk.{Store}
use blendersessiond.Sessions.Inspection.{SessionInspection, is_healthy}
use blendersessiond.Sessions.Inspect.{Outside, session_directory, inspect_unlocked}
use blendersessiond.Sessions.Launch.{Launcher}
use blendersessiond.Sessions.Lifecycle.{inspect_session}
use blendersessiond.Sessions.InspectFailures.{IsInspectError, inspect_file-Raises}
use blendersessiond.Sessions.Coherent.{Coherent, has_session, inspect_session-Coherent}
use blendersessiond.Sessions.Removed.{Removed, AsReported, stop_session-Removed}
use blendersessiond.Sessions.Stop.{StopResult}
use blendersessiond.Cli.SetupOwner.{is_caught}
use blendersessiond.Cli.Sessions.{or_failure, stopped, inspected, status_command, stop_command}

-- An exception that `main` turns into the exit code 1.
abbrev Caught : Error → Type 0
Caught e = is_caught e ≡ true

inspect-Caught : (e : Error) → IsInspectError e → Caught e
unfolding is_caught
inspect-Caught (value_error m) h = refl
inspect-Caught (os_error m) h = refl
inspect-Caught (runtime_error m) h = refl
inspect-Caught _ h = absurd h

name-Allowed : (name : String) → Allowed Caught (validate_session_name name)
unfolding validate_session_name is_caught
name-Allowed name = ground arith

directory-Allowed : (name : String) → Allowed Caught (session_directory name)
unfolding session_directory validate_session_name is_caught
directory-Allowed name = ground arith

module _ {S : Type 0} where
  failure-IsTotal :
      {E : Error → Type 0} (command : String) (body : M S Store (ℕ × Json))
      → ((e : Error) → E e → Caught e)
      → Raises E body
      → IsTotal (or_failure command body)
  unfolding or_failure
  failure-IsTotal command body caught inside = Raises-catch _ _ inside λ e raised.
      Raises-if (is_caught e) _ _ (λ _. Raises-pure _)
        (λ uncaught. absurd (both (caught e raised) uncaught))
    where
      both : {b : Bool} → b ≡ true → b ≡ false → ⊥
      both p q = cc

  -- A failure exits with 1.
  failure-Ends :
      (Q : ℕ × Json → World S Store → Type 0) (command : String) (body : M S Store (ℕ × Json))
      → Ends (λ out w. (out.0 ≡ 1) ⊎ Q out w) body
      → Ends (λ out w. (out.0 ≡ 1) ⊎ Q out w) (or_failure command body)
  unfolding or_failure
  failure-Ends Q command body inside =
      Ends-catch _ _ inside
        λ e. Ends-if (is_caught e) _ _ (Ends-pure _ (λ w. inl refl)) (Ends-throw e)

  -- `inspect_session` returned this inspection from the state `w`, and it is printed; it is of a
  -- healthy Session: alive, stoppable and with a record.
  pub record ShowsHealthy (o : Outside S) (name : String) (w : World S Store) (out : ℕ × Json)
      : Type 0 where
    pub inspection : SessionInspection
    pub returned : (inspect_session o name w).0 ≡ ok inspection
    pub shown : out ≡ inspected inspection
    pub healthy : is_healthy inspection.status ≡ true
    pub alive : inspection.process_alive ≡ true
    pub stoppable : inspection.stoppable ≡ true
    pub recorded : has_session inspection.session ≡ true

  module _ (o : Outside S) where
    inspect_unlocked-Caught : (name : String) → Raises Caught (inspect_unlocked o name)
    unfolding inspect_unlocked
    inspect_unlocked-Caught name =
        Raises-bind _ _ (Raises-lift _ (directory-Allowed name)) λ component.
          Raises-bind _ _ (Raises-reads _)
            λ file. Raises-weaken _ inspect-Caught (inspect_file-Raises o component name file)

    inspect_session-Caught : (name : String) → Raises Caught (inspect_session o name)
    unfolding inspect_session
    inspect_session-Caught name = Raises-bind _ _ (Raises-lift _ (name-Allowed name)) λ _.
        Raises-bind _ _ (Raises-lift _ (directory-Allowed name)) λ component.
          Raises-bind _ _ (Raises-reads _) λ there.
            Raises-if there _ _ (λ _. Raises-file_lock _ _ (inspect_unlocked-Caught name))
              (λ _. Raises-pure _)

    -- A `status` of a Session Name, valid or not, prints a result and exits: no exception escapes,
    -- from any state and whatever the outside answers.
    pub status_command-IsTotal : (name : String) → IsTotal (status_command o (some name))
    unfolding status_command
    status_command-IsTotal name =
        failure-IsTotal "status" _ (λ e h. h)
          (Raises-bind _ _ (inspect_session-Caught name) (λ i. Raises-pure _))

    module _ (name : String) (w : World S Store) where
      shows :
          (i : SessionInspection) (b : Bool)
          → is_healthy i.status ≡ b
          → (inspect_session o name w).0 ≡ ok i
          → Coherent i
          → ((inspected i).0 ≡ 1) ⊎ ShowsHealthy o name w (inspected i)
      unfolding inspected
      shows i true h r q = inr (record {
        inspection = i;
        returned = r;
        shown = refl;
        healthy = h;
        alive = q.healthy_alive h;
        stoppable = q.healthy_stoppable h;
        recorded = q.stoppable_recorded (q.healthy_stoppable h);
      })
      shows i false h r q = inl (rw h refl)

      status_outcome :
          (r : Result SessionInspection × World S Store)
          → r.0 ≡ (inspect_session o name w).0
          → Ended (λ i _. Coherent i) r
          → Ended
              (λ out _. (out.0 ≡ 1) ⊎ ShowsHealthy o name w out)
              (rescue (continue r λ i. pure (inspected i)) λ e.
                if is_caught e
                then pure (1, obj (failure_dict "status" (message e) none))
                else throw e)
      unfolding pure
      status_outcome (ok i, w') same q = shows i (is_healthy i.status) refl (sym same) q
      status_outcome (err e, w') same q =
          (Ends-if (is_caught e) _ _ (Ends-pure _ (λ w. inl refl)) (Ends-throw e)).run w'

      -- A `status` of a Session Name exits with 1, or it prints the inspection that
      -- `inspect_session` returned, and that is of a healthy Session: alive, stoppable and recorded.
      pub status_command-Healthy :
          Ended (λ out _. (out.0 ≡ 1) ⊎ ShowsHealthy o name w out) (status_command o (some name) w)
      unfolding status_command or_failure catch ◌>>=◌
      status_command-Healthy =
          status_outcome (inspect_session o name w) refl ((inspect_session-Coherent o name).run w)

    module _ (l : Launcher S) (name expected : String) where
      exits :
          (result : StopResult) (w : World S Store) (b : Bool)
          → result.stopped ≡ b
          → AsReported (hex name) result w
          → ((stopped result).0 ≡ 1) ⊎ Removed (hex name) w.disk
      unfolding stopped
      exits result w true h q = inr (q h)
      exits result w false h q = inl (rw h refl)

      -- A `stop` of a valid Session Name exits with 1, or no record of the Session is left.
      pub stop_command-Removed :
          validate_session_name name ≡ ok name
          → Ends (λ out w. (out.0 ≡ 1) ⊎ Removed (hex name) w.disk) (stop_command o l name expected)
      unfolding stop_command pure
      stop_command-Removed valid =
          failure-Ends (λ out w. Removed (hex name) w.disk) "stop" _
            (Ends-then _ _ (stop_session-Removed o l name expected valid)
              (λ result w q. exits result w result.stopped refl q))
