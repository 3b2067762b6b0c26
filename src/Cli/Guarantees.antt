-- ===== src/Cli/Guarantees.antt =====
-- What the command `setup-owner` of src/blendersessiond/cli.py and the keeper of
-- src/blendersessiond/windows_setup_process.py guarantee to the other processes that work on the
-- same attempts.
use blendersessiond.Base.{◌∷◌, [], String, ℕ, List}
use blendersessiond.Exec.{World, M, Lock, setup_lock, pure, ◌>>=◌}
use blendersessiond.Exec.Keeps.{Keeps, keeps_rules, Keeps-bind, Keeps-pure}
use blendersessiond.Exec.Locks.{Disciplined, file_lock-Disciplined}
use blendersessiond.Setup.Attempt.{SetupHost, Attempts}
use blendersessiond.Setup.Written.{Stable}
use blendersessiond.Setup.Operations.{Locking}
use blendersessiond.Setup.LaunchEffects.{launch_setup-keeps}
use blendersessiond.Setup.StopEffects.{status_setup-keeps, stop_setup-keeps}
use blendersessiond.Setup.CreateOnce.{Extends, Extends-refl, OthersExtend, Grown-Locking}
use blendersessiond.Setup.ValidTerminals.{TerminalsValid, OthersValid, Valid-Locking}
use blendersessiond.Setup.Keeper.{KeeperHost}
use blendersessiond.Setup.RunKeeper.{run_keeper}
use blendersessiond.Setup.KeeperRuns.{run_keeper-keeps}
use blendersessiond.Cli.SetupOwner.{SetupCommand, launch, status, stop, perform, main}

module _ {S : Type 0} (h : SetupHost S) (P : World S Attempts → Type 0)
    (Q : String → World S Attempts → Type 0) (locking : Locking h P Q) where
  perform-keeps : (command : SetupCommand) → Keeps P (perform h command)
  unfolding perform
  perform-keeps (launch raw) = launch_setup-keeps h P Q locking raw
  perform-keeps (status attempt_id sha256 launch_id) =
      status_setup-keeps h P Q locking attempt_id sha256 launch_id
  perform-keeps (stop attempt_id sha256 launch_id) =
      stop_setup-keeps h P Q locking attempt_id sha256 launch_id

  main-keeps : (command : SetupCommand) → Keeps P (main h command)
  unfolding main
  main-keeps command = search (keeps_rules, perform-keeps)

-- A process that works on attempts: a command, or the keeper of an attempt.
pub data Participant : Type 0 where
  command : SetupCommand → Participant
  keeper : String → Participant

module _ {S : Type 0} (k : KeeperHost S) where
  -- A run of the participant, with its exit code.
  unfoldable pub run : Participant → M S Attempts ℕ
  run (command c) = do out ← main k.setup c; pure out.0
  run (keeper id) = run_keeper k id

  run-keeps :
      (P : World S Attempts → Type 0) (Q : String → World S Attempts → Type 0)
      → Locking k.setup P Q
      → (p : Participant) → Keeps P (run p)
  unfolding run
  run-keeps P Q locking (command c) =
      Keeps-bind _ _ (main-keeps k.setup P Q locking c) (λ out. Keeps-pure _)
  run-keeps P Q locking (keeper id) = run_keeper-keeps k P Q locking id

  -- While the other processes only create files, a run of a setup-owner command or of a keeper,
  -- however it ends, leaves each record file with the content that it had and each marker set that
  -- was set.
  pub run-Extends :
      OthersExtend k.setup
      → (p : Participant) (w : World S Attempts) → Extends w.disk (run p w).1.disk
  run-Extends polite p w =
      (run-keeps _ _ (Grown-Locking k.setup polite w.disk) p).run w (Extends-refl w.disk)

  -- While the other processes write only terminal records that encode a terminal with valid
  -- semantics, and all that are there do, a run of a setup-owner command or of a keeper, however it
  -- ends, leaves only such.
  pub run-TerminalsValid :
      OthersValid k.setup
      → (p : Participant) (w : World S Attempts) → TerminalsValid k.setup w.disk
      → TerminalsValid k.setup (run p w).1.disk
  run-TerminalsValid others p = (run-keeps _ _ (Valid-Locking k.setup others) p).run

  Disciplined-Stable : (locks : List Lock) → Stable k.setup (Disciplined locks)
  Disciplined-Stable locks = record {
    blind = λ w s p. record { holds = p.holds; ordered = p.ordered };
    meanwhile = λ w p. record { holds = p.holds; ordered = p.ordered };
    wrote = λ w id name bytes missing may p. record { holds = p.holds; ordered = p.ordered };
    marked = λ w id marker p. record { holds = p.holds; ordered = p.ordered };
    started = λ w pid p. record { holds = p.holds; ordered = (tt, p.ordered) };
  }

  Disciplined-Locking : Locking k.setup (Disciplined []) (λ id. Disciplined (setup_lock id ∷ []))
  Disciplined-Locking = record {
    outside = Disciplined-Stable [];
    inside = λ id. Disciplined-Stable (setup_lock id ∷ []);
    locked = λ id body kept. file_lock-Disciplined (setup_lock id) body tt kept;
  }

  -- From a state without locks a run of a setup-owner command or of a keeper takes the lock of an
  -- attempt only while it holds no lock, and gives every lock back, however it ends and whatever the
  -- other processes do.
  pub run-Disciplined : (p : Participant) → Keeps (Disciplined []) (run p)
  run-Disciplined p = run-keeps _ _ Disciplined-Locking p
