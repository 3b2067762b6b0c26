-- ===== src/Processes/Effects.antt =====
-- What the functions of src/blendersessiond/processes.py do to a state, but for the operating
-- system's own: the looks at processes do nothing, the kills add their events.
use blendersessiond.Base.{ℕ, ℤ, String, Bool, true, false, Option, none, some, ◌∷◌, zero, suc}
use blendersessiond.Exec.{World, M, Signal, signalled, taskkilled, emit}
use blendersessiond.Exec.Keeps.{Keeps, IgnoresOs, keeps_rules, Keeps-system, Keeps-emit}
use blendersessiond.Processes.Kernel.{
  Kernel, Platform, windows, linux, darwin, other, Kill, delivered, no_group, denied,
}
use blendersessiond.Processes.Identity.{
  read_linux, start_time_on, process_start_time, process_matches,
}
use blendersessiond.Processes.Poll.{poll, after_round, poll_for}
use blendersessiond.Processes.Group.{
  reap, linux_members, after_signal_zero, process_group_exists, send_signal, group_gone, kill_group,
  kill_unless_gone, survivor, terminate_posix_group,
}
use blendersessiond.Processes.Tree.{
  terminate_windows_pid, process_in_group, owned_tree_exists, job_gone, or_survived, terminate_job,
  terminate_owned_tree,
}

module _ {S D : Type 0} (P : World S D → Type 0) (blind : IgnoresOs P) (k : Kernel S) where
  read_linux-keeps : (pid : ℤ) (boot_id : Option String) → Keeps P (read_linux k pid boot_id)
  unfolding read_linux
  read_linux-keeps pid none = search keeps_rules
  read_linux-keeps pid (some boot_id) = search (keeps_rules, Keeps-system blind)

  start_time_on-keeps : (p : Platform) (pid : ℤ) → Keeps P (start_time_on k p pid)
  unfolding start_time_on
  start_time_on-keeps windows pid = search (keeps_rules, Keeps-system blind)
  start_time_on-keeps linux pid = search (keeps_rules, Keeps-system blind, read_linux-keeps)
  start_time_on-keeps darwin pid = search (keeps_rules, Keeps-system blind)
  start_time_on-keeps other pid = search (keeps_rules, Keeps-system blind)

  pub process_start_time-keeps : (pid : ℤ) → Keeps P (process_start_time k pid)
  unfolding process_start_time
  process_start_time-keeps pid = search (keeps_rules, start_time_on-keeps)

  pub process_matches-keeps : (pid : ℤ) (t : String) → Keeps P (process_matches k pid t)
  unfolding process_matches
  process_matches-keeps pid t = search (keeps_rules, process_start_time-keeps)

  pub process_in_group-keeps :
      (pid : ℤ) (t : String) (group : ℤ) → Keeps P (process_in_group k pid t group)
  unfolding process_in_group
  process_in_group-keeps pid t group =
      search (keeps_rules, Keeps-system blind, process_matches-keeps)

  pub owned_tree_exists-keeps :
      (pid : ℤ) (t : String) (c : ℤ) (ct : String) → Keeps P (owned_tree_exists k pid t c ct)
  unfolding owned_tree_exists
  owned_tree_exists-keeps pid t c ct =
      search (keeps_rules, process_matches-keeps, process_in_group-keeps)

  module _ {A : Type 0} (pause : ℕ) (body : M S D (Option A)) (body-keeps : Keeps P body) where
    after_round-keeps :
        (again : M S D (Option A)) (o : Option A)
        → Keeps P again
        → Keeps P (after_round k pause again o)
    unfolding after_round
    after_round-keeps again (some a) h = search keeps_rules
    after_round-keeps again none h = search (keeps_rules, Keeps-system blind)

    poll-keeps : (fuel deadline : ℕ) → Keeps P (poll k pause fuel deadline body)
    unfolding poll
    poll-keeps zero deadline = search keeps_rules
    poll-keeps (suc fuel) deadline =
        let again = poll-keeps fuel deadline in search (keeps_rules, after_round-keeps)

    pub poll_for-keeps : (wait : ℕ) → Keeps P (poll_for k pause wait body)
    unfolding poll_for
    poll_for-keeps wait = search (keeps_rules, poll-keeps)

  reap-keeps : (p : Platform) (pid : ℤ) → Keeps P (reap k p pid)
  unfolding reap
  reap-keeps darwin pid = search (keeps_rules, Keeps-system blind)
  reap-keeps _ pid = search keeps_rules

  linux_members-keeps : (p : Platform) (pid : ℤ) → Keeps P (linux_members k p pid)
  unfolding linux_members
  linux_members-keeps linux pid = search (keeps_rules, Keeps-system blind)
  linux_members-keeps _ pid = search keeps_rules

  after_signal_zero-keeps : (a : Kill) (pid : ℤ) → Keeps P (after_signal_zero k a pid)
  unfolding after_signal_zero
  after_signal_zero-keeps delivered pid = linux_members-keeps _ pid
  after_signal_zero-keeps no_group pid = search keeps_rules
  after_signal_zero-keeps denied pid = search keeps_rules

  pub process_group_exists-keeps : (pid : ℤ) → Keeps P (process_group_exists k pid)
  unfolding process_group_exists
  process_group_exists-keeps pid =
      search (keeps_rules, Keeps-system blind, reap-keeps, after_signal_zero-keeps)

  group_gone-keeps : (pid : ℤ) → Keeps P (group_gone k pid)
  unfolding group_gone
  group_gone-keeps pid = search (keeps_rules, process_group_exists-keeps)

  job_gone-keeps : (pid : ℤ) (t : String) (c : ℤ) (ct : String) → Keeps P (job_gone k pid t c ct)
  unfolding job_gone
  job_gone-keeps pid t c ct = search (keeps_rules, process_matches-keeps)

  survivor-keeps : (alive : Bool) → Keeps P (survivor k alive)
  unfolding survivor
  survivor-keeps true = search keeps_rules
  survivor-keeps false = search keeps_rules

  or_survived-keeps : (gone : Option (Unit {0})) → Keeps P (or_survived k gone)
  unfolding or_survived
  or_survived-keeps none = search keeps_rules
  or_survived-keeps (some u) = search keeps_rules

  -- `target` may be signalled and killed.
  module _ (target : ℤ)
      (signals : (s : Signal) (w : World S D)
        → P w
        → P (record w { events = signalled s target ∷ w.events }))
      (kills : (tree : Bool) (w : World S D)
        → P w
        → P (record w { events = taskkilled tree target ∷ w.events })) where
    emit_signal-keeps : (s : Signal) → Keeps P (emit (signalled s target))
    emit_signal-keeps s = Keeps-emit _ (signals s)

    emit_kill-keeps : (tree : Bool) → Keeps P (emit (taskkilled tree target))
    emit_kill-keeps tree = Keeps-emit _ (kills tree)

    send_signal-keeps : (s : Signal) → Keeps P (send_signal k s target)
    unfolding send_signal
    send_signal-keeps s = search (keeps_rules, Keeps-system blind, emit_signal-keeps)

    kill_group-keeps : Keeps P (kill_group k target)
    unfolding kill_group
    kill_group-keeps = search (
      keeps_rules, send_signal-keeps, poll_for-keeps, group_gone-keeps, process_group_exists-keeps,
      survivor-keeps,
    )

    kill_unless_gone-keeps : (gone : Option (Unit {0})) → Keeps P (kill_unless_gone k target gone)
    unfolding kill_unless_gone
    kill_unless_gone-keeps none = kill_group-keeps
    kill_unless_gone-keeps (some u) = search keeps_rules

    pub terminate_posix_group-keeps : Keeps P (terminate_posix_group k target)
    unfolding terminate_posix_group
    terminate_posix_group-keeps =
        search
          (keeps_rules, send_signal-keeps, poll_for-keeps, group_gone-keeps, kill_unless_gone-keeps)
          depth 8

    pub terminate_windows_pid-keeps : Keeps P (terminate_windows_pid k target)
    unfolding terminate_windows_pid
    terminate_windows_pid-keeps = search (keeps_rules, Keeps-system blind, emit_kill-keeps)

    terminate_job-keeps :
        (pid : ℤ) (t : String) (ct : String) → Keeps P (terminate_job k pid t target ct)
    unfolding terminate_job
    terminate_job-keeps pid t ct = search (
      keeps_rules, terminate_windows_pid-keeps, poll_for-keeps, job_gone-keeps, or_survived-keeps,
    )

    pub terminate_owned_tree-keeps :
        (pid : ℤ) (t : String) (ct : String) → Keeps P (terminate_owned_tree k pid t target ct)
    unfolding terminate_owned_tree
    terminate_owned_tree-keeps pid t ct =
        search
          (
            keeps_rules, process_matches-keeps, process_in_group-keeps, terminate_posix_group-keeps,
            terminate_job-keeps,
          )
          depth 8
