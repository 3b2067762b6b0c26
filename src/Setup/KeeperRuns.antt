-- ===== src/Setup/KeeperRuns.antt =====
-- Whatever survives the steps of Setup/Written.antt survives `run_keeper` of
-- src/blendersessiond/windows_setup_process.py.
use blendersessiond.Base.{ℕ, String, Option, none, some, List}
use blendersessiond.Exec.{World, Error}
use blendersessiond.Exec.Keeps.{
  Keeps, Keeps-bind, Keeps-system, Keeps-catch, Keeps-if, Keeps-pure, Keeps-lift, Keeps-throw,
}
use blendersessiond.Processes.Effects.{process_start_time-keeps}
use blendersessiond.Setup.Records.{SetupRequest}
use blendersessiond.Setup.Attempt.{Attempts}
use blendersessiond.Setup.Written.{Stable, guarded-keeps}
use blendersessiond.Setup.Effects.{load_request-keeps}
use blendersessiond.Setup.Operations.{
  Locking, with_setup_lock-keeps, publish_terminal-keeps, publish_now-keeps,
}
use blendersessiond.Setup.Keeper.{
  OwnedProcess, KeeperHost, Tried, went, broke, Stage, unowned, suspended, resumed,
}
use blendersessiond.Setup.RunKeeper.{
  acknowledge, see_through, give_up, or_give_up, after_acknowledge, after_creation,
  after_first_look, after_script, after_request, run_keeper,
}
use blendersessiond.Setup.KeeperEffects.{
  finished-valid, gave_up-IsSettling, unscripted-IsSettling, native-keeps, tried-keeps,
  there_is_terminal-keeps, read_staged_script-keeps, wait_for_process-keeps, before_creation-keeps,
  take_ownership-keeps, cleanup_at-keeps, closing-keeps,
}

module _ {S : Type 0} (k : KeeperHost S) where
  module _ (P : World S Attempts → Type 0) (Q : String → World S Attempts → Type 0)
      (locking : Locking k.setup P Q) where
    abbrev outer : Stable k.setup P
    outer = locking.outside

    acknowledge-keeps :
        (id : String) (request : SetupRequest) (script : List ℕ) (process : OwnedProcess)
        → Keeps P (acknowledge k id request script process)
    unfolding acknowledge
    acknowledge-keeps id request script process =
        Keeps-bind _ _ (process_start_time-keeps P outer.blind _ _) λ identity.
          Keeps-bind _ _ (Keeps-lift _) λ keeper_time.
            Keeps-bind _ _ (Keeps-system outer.blind _) λ now.
              with_setup_lock-keeps k.setup P Q locking id _ (
                Keeps-bind _ _ (there_is_terminal-keeps k (Q id) (locking.inside id) id)
                  (take_ownership-keeps k (Q id) (locking.inside id) id request script _))

    see_through-keeps : (id : String) (request : SetupRequest) → Keeps P (see_through k id request)
    unfolding see_through
    see_through-keeps id request =
        Keeps-bind _ _ (wait_for_process-keeps k P outer id request.deadline_utc) λ end.
          Keeps-bind _ _ (native-keeps k P outer _) λ code.
            Keeps-bind _ _ (native-keeps k P outer _) λ gone.
              Keeps-bind _ _ (Keeps-if _ _ _ (Keeps-pure _) (native-keeps k P outer _)) λ _.
                Keeps-bind _ _ (native-keeps k P outer _) λ _.
                  Keeps-bind _ _ (native-keeps k P outer _) λ _.
                    Keeps-bind _ _ (Keeps-system outer.blind _) λ both.
                      Keeps-bind _ _ (Keeps-lift _) λ stdout.
                        Keeps-bind _ _ (Keeps-lift _) λ stderr.
                          Keeps-bind _ _ (Keeps-system outer.blind _) λ now.
                            Keeps-bind _ _
                              (publish_terminal-keeps k.setup P Q locking id request _
                                (finished-valid request end _ (stdout, stderr) now))
                              (λ view. Keeps-pure _)

    give_up-keeps :
        (id : String) (request : SetupRequest) (stage : Stage) (e : Error)
        → Keeps P (give_up k id request stage e)
    unfolding give_up
    give_up-keeps id request stage e = Keeps-bind _ _ (cleanup_at-keeps k P outer stage) λ cleanup.
        Keeps-bind _ _ (Keeps-system outer.blind _) λ now.
          Keeps-bind _ _
            (Keeps-catch _ _
              (Keeps-bind _ _
                (publish_terminal-keeps k.setup P Q locking id request _
                  (gave_up-IsSettling stage cleanup request now _))
                (λ view. Keeps-pure _))
              (λ f. Keeps-if _ _ _ (Keeps-pure _) (Keeps-throw f)))
            (λ _. Keeps-pure _)

    after_acknowledge-keeps :
        (id : String) (request : SetupRequest) (t : Tried (Option ℕ))
        → Keeps P (after_acknowledge k id request t)
    unfolding after_acknowledge
    after_acknowledge-keeps id request (broke e) = give_up-keeps id request suspended e
    after_acknowledge-keeps id request (went (some code)) = Keeps-pure code
    after_acknowledge-keeps id request (went none) =
        Keeps-bind _ _ (tried-keeps k P outer _ (see_through-keeps id request)) or_give_up-keeps
      where
        or_give_up-keeps : (t : Tried ℕ) → Keeps P (or_give_up k id request resumed t)
        or_give_up-keeps (went code) = Keeps-pure code
        or_give_up-keeps (broke e) = give_up-keeps id request resumed e

    after_creation-keeps :
        (id : String) (request : SetupRequest) (script : List ℕ) (t : Tried OwnedProcess)
        → Keeps P (after_creation k id request script t)
    unfolding after_creation
    after_creation-keeps id request script (broke e) = give_up-keeps id request unowned e
    after_creation-keeps id request script (went process) = closing-keeps k P outer _ (
        Keeps-bind _ _ (tried-keeps k P outer _ (acknowledge-keeps id request script process))
          (after_acknowledge-keeps id request))

    after_first_look-keeps :
        (id : String) (request : SetupRequest) (script : List ℕ) (t : Tried (Option ℕ))
        → Keeps P (after_first_look k id request script t)
    unfolding after_first_look
    after_first_look-keeps id request script (broke e) = give_up-keeps id request unowned e
    after_first_look-keeps id request script (went (some code)) = Keeps-pure code
    after_first_look-keeps id request script (went none) =
        Keeps-bind _ _ (tried-keeps k P outer _ (native-keeps k P outer _))
          (after_creation-keeps id request script)

    after_script-keeps :
        (id : String) (request : SetupRequest) (t : Tried (List ℕ))
        → Keeps P (after_script k id request t)
    unfolding after_script
    after_script-keeps id request (broke e) =
        Keeps-bind _ _
          (publish_now-keeps k.setup P Q locking id request _ _ _ _ unscripted-IsSettling)
          (λ view. Keeps-pure _)
    after_script-keeps id request (went script) =
        Keeps-bind _ _
          (tried-keeps k P outer _ (
            with_setup_lock-keeps k.setup P Q locking id _ (
              Keeps-bind _ _ (there_is_terminal-keeps k (Q id) (locking.inside id) id)
                (before_creation-keeps k (Q id) (locking.inside id) id request))))
          (after_first_look-keeps id request script)

    after_request-keeps : (id : String) (t : Tried SetupRequest) → Keeps P (after_request k id t)
    unfolding after_request
    after_request-keeps id (broke e) = Keeps-pure 2
    after_request-keeps id (went request) =
        Keeps-bind _ _ (tried-keeps k P outer _ (read_staged_script-keeps k P outer request))
          (after_script-keeps id request)

    pub run_keeper-keeps : (id : String) → Keeps P (run_keeper k id)
    unfolding run_keeper
    run_keeper-keeps id =
        Keeps-catch _ _
          (guarded-keeps k.setup P outer _ (
            Keeps-bind _ _ (tried-keeps k P outer _ (load_request-keeps k.setup P outer id))
              (after_request-keeps id)))
          (λ e. Keeps-pure 2)
