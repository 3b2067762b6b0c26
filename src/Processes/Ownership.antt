-- ===== src/Processes/Ownership.antt =====
-- Ownership in src/blendersessiond/processes.py: `terminate_owned_tree` touches what
-- `owned_tree_exists` recognises, and no other process.
use blendersessiond.Base.{ℤ, String, ◌≡◌, refl, Bool, true, false, not, All, if◌then◌else◌}
use blendersessiond.Exec.{
  World, Result, ok, err, M, Event, acquired, signalled, taskkilled, spawned, requested, pure,
  continue, ◌>>=◌,
}
use blendersessiond.Processes.Kernel.{Kernel}
use blendersessiond.Processes.Identity.{process_matches}
use blendersessiond.Processes.Tree.{
  is_windows, process_in_group, owned_tree_exists, terminate_job, terminate_owned_tree,
}
use blendersessiond.Processes.Group.{terminate_posix_group}
use blendersessiond.Processes.Effects.{terminate_owned_tree-keeps}

-- A signal or a kill goes to this process or process group.
abbrev pub Targets : ℤ → Event → Type 0
Targets c (signalled _ p) = p ≡ c
Targets c (taskkilled _ p) = p ≡ c
Targets c (acquired _ _) = Unit
Targets c (spawned _) = Unit
Targets c (requested _ _) = Unit

module _ {S D : Type 0} (k : Kernel S) (pid : ℤ) (start : String) (c : ℤ) (c_start : String) where
  -- Whatever the system answers: if every signal and kill so far went to the recorded controller,
  -- then so does every one that a termination of the tree adds.
  pub terminate_owned_tree-Targets :
      (w : World S D)
      → All (Targets c) w.events
      → All (Targets c) (terminate_owned_tree k pid start c c_start w).1.events
  terminate_owned_tree-Targets =
      (terminate_owned_tree-keeps (λ w. All (Targets c) w.events) (λ w s h. h) k c
        (λ s w h. (refl, h)) (λ tree w h. (refl, h)) pid start c_start).run

  -- What is done to a tree that is there.
  abbrev pub kill_tree : M S D Unit
  kill_tree =
      if is_windows k.platform
      then terminate_job k pid start c c_start
      else terminate_posix_group k c

  abbrev when : Bool → M S D Unit
  when b = if b then kill_tree else pure tt

  checked_twice :
      (kill : M S D Unit) (o : Result Bool × World S D) (member : M S D Bool)
      → continue o (λ b. if b then kill else (member >>= λ m. if m then kill else pure tt))
        ≡ continue
            (continue o (λ b. if b then pure true else member))
            (λ b. if b then kill else pure tt)
  unfolding ◌>>=◌ pure
  checked_twice kill (ok true, w) member = refl
  checked_twice kill (ok false, w) member = refl
  checked_twice kill (err e, w) member = refl

  abbrev if_so : M S D Bool → M S D Unit → M S D Unit → M S D Unit
  if_so test yes_branch no_branch = test >>= λ b. if b then yes_branch else no_branch

  abbrev either : M S D Bool → M S D Bool → M S D Bool
  either first second = first >>= λ b. if b then pure true else second

  on_either :
      (p : Bool) (job posix : M S D Unit) (matches member : M S D Bool) (w : World S D)
      → (if not p
            then if_so matches posix (if_so member posix (pure tt))
            else if_so matches job (pure tt))
          w
        ≡ if_so
            (if p then matches else either matches member)
            (if p then job else posix)
            (pure tt)
            w
  unfolding ◌>>=◌
  on_either true job posix matches member w = refl
  on_either false job posix matches member w = checked_twice posix (matches w) member

  -- `terminate_owned_tree` asks what `owned_tree_exists` asks, in the same order, and kills the tree
  -- exactly if that would have answered yes.
  pub terminate_owned_tree-owned_tree_exists :
      (w : World S D)
      → terminate_owned_tree k pid start c c_start w
        ≡ (owned_tree_exists k pid start c c_start >>= when) w
  unfolding terminate_owned_tree owned_tree_exists
  terminate_owned_tree-owned_tree_exists w =
      on_either (is_windows k.platform) (terminate_job k pid start c c_start)
        (terminate_posix_group k c) (process_matches k c c_start) (process_in_group k pid start c) w
