-- ===== src/Processes/Identity.antt =====
-- Process identity in src/blendersessiond/processes.py: `process_start_time` and what it reads on
-- each platform, `process_matches`, `_process_in_group` and `owned_tree_exists`.
use blendersessiond.Base.{
  ℕ, ◌+◌, ◌*◌, ◌^◌, ℤ, is_positive, int_eq, String, ◌<>◌, show, Bool, false, not, ◌||◌, Option,
  none, some, List, [], ◌∷◌, ◌==◌, str_eq, strip, split, after_last, get_elem?, if◌then◌else◌,
}
use blendersessiond.Exec.{Result, ok, err, M, value_error, pure, lift, system, ◌>>=◌}
use blendersessiond.Processes.Kernel.{
  Kernel, Platform, windows, linux, darwin, other, BsdInfo, ProcessTimes, Read, readable,
  unreadable, undecodable,
}

-- `fields[0] == "Z"` gives none; a line with too few fields too.
live_start_ticks : List String → Option String
live_start_ticks [] = none
live_start_ticks (state ∷ fields) = if str_eq state "Z" then none else get_elem? (state ∷ fields) 19

start_ticks : Option String → Option String
unfolding live_start_ticks
start_ticks none = none
start_ticks (some behind_name) = live_start_ticks (split behind_name)

-- The parse of `/proc/PID/stat`. The name of the program may hold blanks and parentheses: the
-- fields begin behind the last one.
unfoldable pub linux_identity : String → String → Option String
unfolding start_ticks
linux_identity boot_id content =
    if str_eq boot_id "" then none else elim (start_ticks (after_last b')' content)) [
      | none ↦ none
      | some ticks ↦ some ("linux:" <> boot_id <> ":" <> ticks)
    ]

unfoldable pub ps_identity : Option (ℕ × String) → Option String
ps_identity none = none
ps_identity (some (returncode, value)) =
    if not (returncode == 0) || str_eq value "" then none else some ("ps:" <> value)

unfoldable pub darwin_identity : ℤ → Option BsdInfo → Option String
darwin_identity pid none = none
darwin_identity pid (some info) =
    if not info.complete || not (int_eq info.pbi_pid pid)
    then none
    else if info.pbi_status == 5
    then none
    else some ("darwin:" <> show info.pbi_start_tvsec <> ":" <> show info.pbi_start_tvusec)

-- The words of a FILETIME are below 2 ^ 32, so `|` is a sum.
abbrev filetime : ℕ → ℕ → ℕ
filetime high low = high * 2 ^ 32 + low

unfoldable pub windows_identity : Option ProcessTimes → Option String
windows_identity none = none
windows_identity (some t) =
    if not (filetime t.exit_high t.exit_low == 0)
    then none
    else some ("windows:" <> show (filetime t.creation_high t.creation_low))

-- An `OSError` is caught, a `UnicodeDecodeError` is not.
unfoldable pub decoded : {A : Type 0} → Read A → Result (Option A)
decoded (readable a) = ok (some a)
decoded unreadable = ok none
decoded (undecodable m) = err (value_error m)

linux_start_time : Option String → Option String → Option String
linux_start_time (some boot_id) (some content) = linux_identity (strip boot_id) content
linux_start_time _ _ = none

abbrev pub same_identity : Option String → String → Bool
same_identity none expected = false
same_identity (some identity) expected = str_eq identity expected

module _ {S D : Type 0} (k : Kernel S) where
  -- A read of the boot id that fails is not followed by a read of `stat`.
  unfoldable pub read_linux : ℤ → Option String → M S D (Option String)
  unfolding linux_start_time decoded
  read_linux pid none = pure none
  read_linux pid (some boot_id) = do
    read ← system (k.stat pid)
    content ← lift (decoded read)
    pure (linux_start_time (some boot_id) content)

  unfoldable pub start_time_on : Platform → ℤ → M S D (Option String)
  unfolding decoded
  start_time_on windows pid = do times ← system (k.process_times pid); pure (windows_identity times)
  start_time_on linux pid = do
    read ← system k.boot_id
    boot_id ← lift (decoded read)
    read_linux pid boot_id
  start_time_on darwin pid = do info ← system (k.bsd_info pid); pure (darwin_identity pid info)
  start_time_on other pid = do
    run ← system (k.ps pid)
    completed ← lift (decoded run)
    pure (ps_identity completed)

  unfoldable pub process_start_time : ℤ → M S D (Option String)
  process_start_time pid = if is_positive pid then start_time_on k.platform pid else pure none

  unfoldable pub process_matches : ℤ → String → M S D Bool
  process_matches pid expected_start_time = do
    identity ← process_start_time pid
    pure (same_identity identity expected_start_time)
