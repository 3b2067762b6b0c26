-- ===== src/Processes/Failures.antt =====
-- With what a termination in src/blendersessiond/processes.py can fail.
use blendersessiond.Processes.Identity.{process_matches}
use blendersessiond.Base.{
  arith, refl, ◌≡◌, ℕ, zero, suc, ℤ, String, Bool, true, false, Option, none, some, if◌then◌else◌,
}
use blendersessiond.Exec.{M, Error, throw, os_error, value_error, runtime_error, Signal}
use blendersessiond.Exec.Raises.{
  Allowed, Raises, Raises-weaken, Raises-throw, Raises-pure, Raises-if, Raises-bind, Raises-emit,
  Raises-answered, raises_rules,
}
use blendersessiond.Processes.Kernel.{
  Kernel, Platform, linux, darwin, Kill, delivered, no_group, denied, Taskkill, exited, timed_out,
  not_started, garbled, Listing, listed, not_listed, listing_failed,
}
use blendersessiond.Processes.Poll.{poll, after_round, poll_for}
use blendersessiond.Processes.Group.{
  signal_answer, group_entries, reap, linux_members, after_signal_zero, process_group_exists,
  send_signal, group_gone, kill_group, kill_unless_gone, survivor, terminate_posix_group,
}
use blendersessiond.Processes.Tree.{
  taskkill_outcome, terminate_windows_pid, process_in_group, job_gone, or_survived, terminate_job,
  terminate_owned_tree,
}
use blendersessiond.Processes.Looks.{
  taskkill_bytes, IsLookError, process_matches-Looks, process_in_group-Looks,
}

-- The errors of a termination: the reports of the termination itself, an `OSError`, and the
-- `UnicodeDecodeError` of bytes that the system gave.
abbrev pub IsTerminationError : {S : Type 0} → Kernel S → Error → Type 0
IsTerminationError k (runtime_error _) = Unit
IsTerminationError k e = IsLookError k e

answer-Allowed :
    {S : Type 0} (k : Kernel S) (a : Kill) → Allowed (IsTerminationError k) (signal_answer a)
unfolding signal_answer
answer-Allowed k delivered = tt
answer-Allowed k no_group = tt
answer-Allowed k denied = tt

entries-Allowed :
    {S : Type 0} (k : Kernel S) (group : ℤ) (l : Listing)
    → Allowed (IsTerminationError k) (group_entries group l)
unfolding group_entries
entries-Allowed k group (listed entries) = tt
entries-Allowed k group not_listed = tt
entries-Allowed k group (listing_failed m) = tt

exit_code-Allowed :
    {S : Type 0} (k : Kernel S) (what : String) (code : ℕ) (details : String)
    → Allowed (IsTerminationError k) (taskkill_outcome what (exited code details))
unfolding taskkill_outcome
exit_code-Allowed k what code details = ground arith

taskkill-Allowed :
    {S : Type 0} (k : Kernel S) (what : String) (whole : Bool) (pid : ℤ) (s : S) (t : Taskkill)
    → (k.taskkill whole pid s).0 ≡ t
    → Allowed (IsTerminationError k) (taskkill_outcome what t)
unfolding taskkill_outcome
taskkill-Allowed k what whole pid s (exited code details) e = exit_code-Allowed k what code details
taskkill-Allowed k what whole pid s timed_out e = tt
taskkill-Allowed k what whole pid s (not_started m) e = tt
taskkill-Allowed k what whole pid s (garbled m) e = taskkill_bytes whole pid s e

look-IsTerminationError :
    {S : Type 0} (k : Kernel S) (e : Error) → IsLookError k e → IsTerminationError k e
look-IsTerminationError k (os_error m) h = tt
look-IsTerminationError k (value_error m) h = h
look-IsTerminationError k _ h = absurd h

module _ {S D : Type 0} (k : Kernel S) where
  abbrev Fails : {A : Type 0} → M S D A → Type 0
  Fails m = Raises (IsTerminationError k) m

  either-Fails :
      {A : Type 0} (b : Bool) (m n : M S D A) → Fails m → Fails n → Fails (if b then m else n)
  either-Fails b m n hm hn = Raises-if b m n (λ _. hm) (λ _. hn)

  refusal-Raises : {A : Type 0} (m : String) → Fails (throw {A = A} (runtime_error m))
  refusal-Raises m = Raises-throw _ tt

  module _ {A : Type 0} (pause : ℕ) (body : M S D (Option A)) (fails : Fails body) where
    after_round-Raises :
        (again : M S D (Option A)) (o : Option A)
        → Fails again
        → Fails (after_round k pause again o)
    unfolding after_round
    after_round-Raises again (some a) h = search raises_rules
    after_round-Raises again none h = search raises_rules

    poll-Raises : (fuel deadline : ℕ) → Fails (poll k pause fuel deadline body)
    unfolding poll
    poll-Raises zero deadline = search raises_rules
    poll-Raises (suc fuel) deadline =
        let again = poll-Raises fuel deadline in
        search (raises_rules, either-Fails, after_round-Raises)

    poll_for-Raises : (wait : ℕ) → Fails (poll_for k pause wait body)
    unfolding poll_for
    poll_for-Raises wait = search (raises_rules, poll-Raises)

  reap-Raises : (p : Platform) (pid : ℤ) → Fails (reap k p pid)
  unfolding reap
  reap-Raises darwin pid = search raises_rules
  reap-Raises _ pid = search raises_rules

  linux_members-Raises : (p : Platform) (pid : ℤ) → Fails (linux_members k p pid)
  unfolding linux_members
  linux_members-Raises linux pid = search (raises_rules, entries-Allowed k)
  linux_members-Raises _ pid = search raises_rules

  after_signal_zero-Raises : (a : Kill) (pid : ℤ) → Fails (after_signal_zero k a pid)
  unfolding after_signal_zero
  after_signal_zero-Raises delivered pid = linux_members-Raises _ pid
  after_signal_zero-Raises no_group pid = search raises_rules
  after_signal_zero-Raises denied pid = search raises_rules

  process_group_exists-Raises : (pid : ℤ) → Fails (process_group_exists k pid)
  unfolding process_group_exists
  process_group_exists-Raises pid =
      search (raises_rules, either-Fails, reap-Raises, after_signal_zero-Raises)

  group_gone-Raises : (pid : ℤ) → Fails (group_gone k pid)
  unfolding group_gone
  group_gone-Raises pid = search (raises_rules, process_group_exists-Raises)

  send_signal-Raises : (s : Signal) (pid : ℤ) → Fails (send_signal k s pid)
  unfolding send_signal
  send_signal-Raises s pid = search (raises_rules, answer-Allowed k)

  survivor-Raises : (alive : Bool) → Fails (survivor k alive)
  unfolding survivor
  survivor-Raises true = Raises-throw _ tt
  survivor-Raises false = Raises-pure tt

  kill_group-Raises : (pid : ℤ) → Fails (kill_group k pid)
  unfolding kill_group
  kill_group-Raises pid = search (
    raises_rules, either-Fails, send_signal-Raises, poll_for-Raises, group_gone-Raises,
    process_group_exists-Raises, survivor-Raises,
  )

  kill_unless_gone-Raises :
      (pid : ℤ) (gone : Option (Unit {0})) → Fails (kill_unless_gone k pid gone)
  unfolding kill_unless_gone
  kill_unless_gone-Raises pid none = kill_group-Raises pid
  kill_unless_gone-Raises pid (some u) = search raises_rules

  terminate_posix_group-Raises : (pid : ℤ) → Fails (terminate_posix_group k pid)
  unfolding terminate_posix_group
  terminate_posix_group-Raises pid =
      search
        (
          raises_rules, either-Fails, send_signal-Raises, poll_for-Raises, group_gone-Raises,
          kill_unless_gone-Raises, refusal-Raises,
        )
        depth 9

  or_survived-Raises : (gone : Option (Unit {0})) → Fails (or_survived k gone)
  unfolding or_survived
  or_survived-Raises none = Raises-throw _ tt
  or_survived-Raises (some u) = Raises-pure tt

  matches-Raises : (pid : ℤ) (t : String) → Fails (process_matches k pid t)
  matches-Raises pid t = Raises-weaken _ (look-IsTerminationError k) (process_matches-Looks k pid t)

  job_gone-Raises : (pid : ℤ) (t : String) (c : ℤ) (ct : String) → Fails (job_gone k pid t c ct)
  unfolding job_gone
  job_gone-Raises pid t c ct = search (raises_rules, either-Fails, matches-Raises)

  windows_pid-Raises : (pid : ℤ) → Fails (terminate_windows_pid k pid)
  unfolding terminate_windows_pid
  windows_pid-Raises pid =
      Raises-bind _ _ (Raises-emit _)
        (λ _. Raises-answered _ _ λ s. taskkill-Allowed k _ false pid s _ refl)

  terminate_job-Raises :
      (pid : ℤ) (t : String) (c : ℤ) (ct : String) → Fails (terminate_job k pid t c ct)
  unfolding terminate_job
  terminate_job-Raises pid t c ct =
      search
        (raises_rules, windows_pid-Raises, poll_for-Raises, job_gone-Raises, or_survived-Raises)

  member-Raises : (pid : ℤ) (t : String) (group : ℤ) → Fails (process_in_group k pid t group)
  member-Raises pid t group =
      Raises-weaken _ (look-IsTerminationError k) (process_in_group-Looks k pid t group)

  pub terminate_owned_tree-Raises :
      (pid : ℤ) (t : String) (c : ℤ) (ct : String)
      → Raises {D = D} (IsTerminationError k) (terminate_owned_tree k pid t c ct)
  unfolding terminate_owned_tree
  terminate_owned_tree-Raises pid t c ct =
      search
        (
          raises_rules, either-Fails, matches-Raises, member-Raises, terminate_posix_group-Raises,
          terminate_job-Raises,
        )
        depth 9
