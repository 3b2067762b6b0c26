-- ===== src/Setup/LaunchEffects.antt =====
-- Whatever survives the steps of Setup/Written.antt survives `launch_setup` of
-- src/blendersessiond/setup_owner.py.
use blendersessiond.Base.{ℕ, ℤ, String, Bool, true, false, Option, none, some, List}
use blendersessiond.Exec.{World, Error, ◌>>=◌}
use blendersessiond.Exec.Keeps.{Keeps, keeps_rules, Keeps-bind, Keeps-system, Keeps-emit}
use blendersessiond.Processes.Effects.{process_start_time-keeps, poll_for-keeps}
use blendersessiond.Processes.Start.{wait_for_process_start_time}
use blendersessiond.Sessions.Launch.{Spawned, running, spawn_failed}
use blendersessiond.Setup.Records.{SetupRequest, SetupView}
use blendersessiond.Setup.Attempt.{SetupHost, Attempts}
use blendersessiond.Setup.Written.{Stable, guarded-keeps, touch_create_once-keeps}
use blendersessiond.Setup.Effects.{read_view-keeps, write_terminal-keeps}
use blendersessiond.Setup.Operations.{
  Locking, failed-IsSettling, with_setup_lock-keeps, require_windows-keeps,
  accept_launch_request-keeps,
}
use blendersessiond.Setup.Launch.{
  Decision, answered, proceed, spawned_pid, acknowledged, spawn_keeper, fail_unless, fail_launch,
  report_failure, dispatch, decide, settled_round, or_fail, await_keeper, after_decision,
  launch_setup,
}

module _ {S : Type 0} (h : SetupHost S) (P : World S Attempts → Type 0)
    (Q : String → World S Attempts → Type 0) (locking : Locking h P Q) where
  abbrev outer : Stable h P
  outer = locking.outside

  abbrev inner : (id : String) → Stable h (Q id)
  inner id = locking.inside id

  spawned_pid-keeps : (answer : Spawned) → Keeps P (spawned_pid h answer)
  unfolding spawned_pid
  spawned_pid-keeps (running pid) =
      Keeps-bind _ _ (Keeps-emit _ (λ w. outer.started w pid)) (λ _. search keeps_rules)
  spawned_pid-keeps (spawn_failed m) = search keeps_rules

  acknowledged-keeps : (t : Option String) → Keeps P (acknowledged h t)
  unfolding acknowledged
  acknowledged-keeps none = search keeps_rules
  acknowledged-keeps (some t) = search keeps_rules

  start_time_wait-keeps : (pid : ℤ) → Keeps P (wait_for_process_start_time h.kernel pid)
  unfolding wait_for_process_start_time
  start_time_wait-keeps pid =
      poll_for-keeps P outer.blind h.kernel _ _
        (search (keeps_rules, process_start_time-keeps P outer.blind)) _

  spawn_keeper-keeps : (id : String) → Keeps P (spawn_keeper h id)
  unfolding spawn_keeper
  spawn_keeper-keeps id =
      search
        (
          keeps_rules,
          guarded-keeps h P outer,
          Keeps-system outer.blind,
          spawned_pid-keeps,
          start_time_wait-keeps,
          acknowledged-keeps,
        )
        depth 9

  fail_unless-keeps :
      (id : String) (request : SetupRequest) (text : String) (view : SetupView)
      → Keeps (Q id) (fail_unless h id request text view)
  unfolding fail_unless
  fail_unless-keeps id request text view =
      search
        (
          keeps_rules,
          touch_create_once-keeps h (Q id) (inner id),
          Keeps-system (inner id).blind,
          write_terminal-keeps h (Q id) (inner id),
          failed-IsSettling,
        )
        depth 9

  pub fail_launch-keeps :
      (id : String) (request : SetupRequest) (text : String)
      → Keeps P (fail_launch h id request text)
  unfolding fail_launch
  fail_launch-keeps id request text =
      with_setup_lock-keeps h P Q locking id _
        (search (keeps_rules, read_view-keeps h (Q id) (inner id), fail_unless-keeps))

  report_failure-keeps :
      (id : String) (request : SetupRequest) (e : Error) → Keeps P (report_failure h id request e)
  unfolding report_failure
  report_failure-keeps id request e = search (keeps_rules, fail_launch-keeps)

  dispatch-keeps :
      (id : String) (request : SetupRequest) (fresh : Bool) → Keeps P (dispatch h id request fresh)
  unfolding dispatch
  dispatch-keeps id request true = search (keeps_rules, spawn_keeper-keeps, report_failure-keeps)
  dispatch-keeps id request false = search keeps_rules

  decide-keeps : (id : String) (view : SetupView) → Keeps (Q id) (decide h id view)
  unfolding decide
  decide-keeps id view = search (keeps_rules, touch_create_once-keeps h (Q id) (inner id))

  settled_round-keeps :
      (id : String) (request : SetupRequest) → Keeps P (settled_round h id request)
  unfolding settled_round
  settled_round-keeps id request = search (keeps_rules, read_view-keeps h P outer)

  or_fail-keeps :
      (id : String) (request : SetupRequest) (settled : Option SetupView)
      → Keeps P (or_fail h id request settled)
  unfolding or_fail
  or_fail-keeps id request (some view) = search keeps_rules
  or_fail-keeps id request none = search fail_launch-keeps

  await_keeper-keeps :
      (id : String) (request : SetupRequest) (failed : Option SetupView)
      → Keeps P (await_keeper h id request failed)
  unfolding await_keeper
  await_keeper-keeps id request (some view) = search keeps_rules
  await_keeper-keeps id request none =
      search (keeps_rules, poll_for-keeps P outer.blind, settled_round-keeps, or_fail-keeps)

  after_decision-keeps :
      (id : String) (request : SetupRequest) (d : Decision)
      → Keeps P (after_decision h id request d)
  unfolding after_decision
  after_decision-keeps id request (answered view) = search keeps_rules
  after_decision-keeps id request (proceed fresh) =
      search (keeps_rules, dispatch-keeps, await_keeper-keeps)

  decided-keeps :
      (id : String) (request : SetupRequest)
      → Keeps P (
          blendersessiond.Setup.Attempt.with_setup_lock h id
            (do view ← blendersessiond.Setup.View.read_view h id request; decide h id view))
  decided-keeps id request =
      with_setup_lock-keeps h P Q locking id _
        (search (keeps_rules, read_view-keeps h (Q id) (inner id), decide-keeps))

  pub launch_setup-keeps : (raw : List ℕ) → Keeps P (launch_setup h raw)
  unfolding launch_setup
  launch_setup-keeps raw = Keeps-bind _ _ (require_windows-keeps h P Q locking) λ _.
      search
        (
          keeps_rules,
          accept_launch_request-keeps h P Q locking,
          decided-keeps,
          after_decision-keeps,
        )
        depth 9
