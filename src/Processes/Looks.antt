-- ===== src/Processes/Looks.antt =====
-- With what the looks at processes in src/blendersessiond/processes.py can fail.
use blendersessiond.Base.{◌≡◌, refl, ℤ, String, Bool, Option, none, some, if◌then◌else◌}
use blendersessiond.Exec.{M, Error, os_error, value_error}
use blendersessiond.Exec.Raises.{
  Allowed, Raises, Raises-if, Raises-pure, Raises-asked, raises_rules,
}
use blendersessiond.Processes.Kernel.{
  Kernel, Platform, windows, linux, darwin, other, Read, readable, unreadable, undecodable, Group,
  in_group, no_process, refused, garbled,
}
use blendersessiond.Processes.Identity.{
  decoded, read_linux, start_time_on, process_start_time, process_matches,
}
use blendersessiond.Processes.Tree.{same_group, process_in_group, owned_tree_exists}

-- The system gave bytes that this `UnicodeDecodeError` refuses: in the boot id, in
-- `/proc/PID/stat`, in the output of `ps` or in that of `taskkill`.
pub data Undecodable {S : Type 0} (k : Kernel S) (m : String) : Type 0 where
  boot_id_bytes : (s : S) → (k.boot_id s).0 ≡ undecodable m → Undecodable k m
  stat_bytes : (pid : ℤ) (s : S) → (k.stat pid s).0 ≡ undecodable m → Undecodable k m
  ps_bytes : (pid : ℤ) (s : S) → (k.ps pid s).0 ≡ undecodable m → Undecodable k m
  taskkill_bytes :
      (tree : Bool) (pid : ℤ) (s : S) → (k.taskkill tree pid s).0 ≡ garbled m → Undecodable k m

-- Such a `UnicodeDecodeError`, or an `OSError`.
abbrev pub IsLookError : {S : Type 0} → Kernel S → Error → Type 0
IsLookError k (os_error m) = Unit
IsLookError k (value_error m) = Undecodable k m
IsLookError k _ = ⊥

module _ {S D : Type 0} {E : Error → Type 0} where
  pub Raises-either :
      {A : Type 0} (b : Bool) (m n : M S D A)
      → Raises E m
      → Raises E n
      → Raises E (if b then m else n)
  Raises-either b m n hm hn = Raises-if b m n (λ _. hm) (λ _. hn)

decoded-Allowed :
    {S A : Type 0} (k : Kernel S) (r : Read A)
    → ((m : String) → r ≡ undecodable m → Undecodable k m)
    → Allowed (IsLookError k) (decoded r)
unfolding decoded
decoded-Allowed k (readable a) h = tt
decoded-Allowed k unreadable h = tt
decoded-Allowed k (undecodable m) h = h m refl

group-Allowed :
    {S : Type 0} (k : Kernel S) (g : Group) (group : ℤ)
    → Allowed (IsLookError k) (same_group g group)
unfolding same_group
group-Allowed k (in_group g) group = tt
group-Allowed k no_process group = tt
group-Allowed k (refused m) group = tt

module _ {S D : Type 0} (k : Kernel S) where
  abbrev Looks : {A : Type 0} → M S D A → Type 0
  Looks m = Raises (IsLookError k) m

  read_linux-Looks : (pid : ℤ) (boot_id : Option String) → Looks (read_linux k pid boot_id)
  unfolding read_linux
  read_linux-Looks pid none = Raises-pure _
  read_linux-Looks pid (some boot_id) =
      Raises-asked (k.stat pid) decoded _ (λ s. decoded-Allowed k _ (λ m e. stat_bytes pid s e))
        (λ content. Raises-pure _)

  start_time_on-Looks : (p : Platform) (pid : ℤ) → Looks (start_time_on k p pid)
  unfolding start_time_on
  start_time_on-Looks windows pid = search raises_rules
  start_time_on-Looks linux pid =
      Raises-asked k.boot_id decoded _ (λ s. decoded-Allowed k _ (λ m e. boot_id_bytes s e))
        (read_linux-Looks pid)
  start_time_on-Looks darwin pid = search raises_rules
  start_time_on-Looks other pid =
      Raises-asked (k.ps pid) decoded _ (λ s. decoded-Allowed k _ (λ m e. ps_bytes pid s e))
        (λ run. Raises-pure _)

  process_start_time-Looks : (pid : ℤ) → Looks (process_start_time k pid)
  unfolding process_start_time
  process_start_time-Looks pid = search (raises_rules, Raises-either, start_time_on-Looks)

  pub process_matches-Looks : (pid : ℤ) (t : String) → Looks (process_matches k pid t)
  unfolding process_matches
  process_matches-Looks pid t = search (raises_rules, process_start_time-Looks)

  pub process_in_group-Looks :
      (pid : ℤ) (t : String) (group : ℤ) → Looks (process_in_group k pid t group)
  unfolding process_in_group
  process_in_group-Looks pid t group =
      search (raises_rules, Raises-either, process_matches-Looks, group-Allowed k)

  pub owned_tree_exists-Looks :
      (pid : ℤ) (t : String) (c : ℤ) (ct : String) → Looks (owned_tree_exists k pid t c ct)
  unfolding owned_tree_exists
  owned_tree_exists-Looks pid t c ct =
      search (raises_rules, Raises-either, process_matches-Looks, process_in_group-Looks)
