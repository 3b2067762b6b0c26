-- ===== src/Processes/Group.antt =====
-- Process groups in src/blendersessiond/processes.py: `_process_group_exists`,
-- `_linux_process_group_has_live_members` and `_terminate_posix_group`.
use blendersessiond.Base.{
  ℕ, ℤ, is_positive, int_eq, String, Bool, true, false, not, ◌&&◌, ◌||◌, Option, none, some, List,
  [], ◌∷◌, ◌==◌, str_eq, split, after_last, get_elem?, codes, is_digit, all, if◌then◌else◌, ◌-◌,
  ◌*◌, ◌+◌, pos, negsuc, zero, suc,
}
use blendersessiond.Exec.{
  M, Signal, sigterm, sigkill, signalled, os_error, runtime_error, pure, throw, lift, system, emit,
  Result, ok, err, ◌>>=◌, ◌>>◌,
}
use blendersessiond.Processes.Kernel.{
  Kernel, Platform, linux, darwin, Kill, delivered, no_group, denied, Stat, content, missing,
  forbidden, failed, Listing, listed, not_listed, listing_failed,
}
use blendersessiond.Processes.Poll.{poll_for}

abbrev pub stop_wait : ℕ
stop_wait = 5000

-- `int(text)` for the fields of `/proc/PID/stat` that are process groups: a decimal numeral.
unfoldable pub decimal : ℕ → List ℕ → Option ℕ
decimal n [] = some n
decimal n (c ∷ cs) =
    let rest = decimal (n * 10 + (c - b'0')) cs in if is_digit c then rest else none

abbrev negated : Option ℕ → Option ℤ
negated none = none
negated (some zero) = some (pos 0)
negated (some (suc n)) = some (negsuc n)

abbrev positive : Option ℕ → Option ℤ
positive none = none
positive (some n) = some (pos n)

numeral : List ℕ → Option ℕ
numeral [] = none
numeral (c ∷ cs) = decimal 0 (c ∷ cs)

signed : List ℕ → Option ℤ
signed [] = none
signed (c ∷ cs) = if c == b'-' then negated (numeral cs) else positive (numeral (c ∷ cs))

unfoldable pub group_number : Option String → Option ℤ
unfolding decimal numeral signed
group_number none = none
group_number (some field) = signed (codes field)

-- What one entry of /proc says of a process group: it has a live member there, or it has none, or
-- the entry cannot be read.
pub data Member : Type 0 where
  live absent unknown : Member

membership : ℤ → Option String → Option ℤ → Member
membership group (some state) (some g) =
    if int_eq g group && not (str_eq state "Z") then live else absent
membership group _ _ = unknown

stat_member : ℤ → Option String → Member
unfolding membership
stat_member group none = unknown
stat_member group (some behind_name) =
    let fields = split behind_name in
    membership group (get_elem? fields 0) (group_number (get_elem? fields 2))

unfoldable pub entry_member : ℤ → String × Stat → Member
unfolding stat_member
entry_member group (name, read) =
    if str_eq name "" || not (all is_digit (codes name)) then absent else elim read [
      | content text ↦ stat_member group (after_last b')' text)
      | missing ↦ absent
      | forbidden ↦ unknown
      | failed ↦ absent
    ]

-- The loop over the entries; `unread` is the source's `unknown`.
unfoldable pub has_live_members : ℤ → Bool → List (String × Stat) → Bool
has_live_members group unread [] = unread
has_live_members group unread (entry ∷ entries) = elim (entry_member group entry) [
  | live ↦ true
  | absent ↦ has_live_members group unread entries
  | unknown ↦ has_live_members group true entries
]

-- The `try` around `iterdir()` does not reach the loop.
unfoldable pub group_entries : ℤ → Listing → Result Bool
group_entries group not_listed = ok true
group_entries group (listing_failed m) = err (os_error m)
group_entries group (listed entries) = ok (has_live_members group false entries)

-- `os.killpg(pid, sig)`, with whether the group was there.
unfoldable pub signal_answer : Kill → Result Bool
signal_answer delivered = ok true
signal_answer no_group = ok false
signal_answer denied = err (os_error "Operation not permitted")

abbrev pub ends_wait : Bool → Option (Unit {0})
ends_wait true = none
ends_wait false = some tt

module _ {S D : Type 0} (k : Kernel S) where
  unfoldable pub reap : Platform → ℤ → M S D Unit
  reap darwin pid = do system (k.waitpid pid); pure tt
  reap _ pid = pure tt

  unfoldable pub linux_members : Platform → ℤ → M S D Bool
  linux_members linux pid = do entries ← system k.proc_entries; lift (group_entries pid entries)
  linux_members _ pid = pure true

  unfoldable pub after_signal_zero : Kill → ℤ → M S D Bool
  after_signal_zero no_group pid = pure false
  after_signal_zero denied pid = pure true
  after_signal_zero delivered pid = linux_members k.platform pid

  unfoldable pub process_group_exists : ℤ → M S D Bool
  process_group_exists pid =
      if is_positive pid
      then (do
        reap k.platform pid
        answer ← system (k.killpg pid none)
        after_signal_zero answer pid)
      else pure false

  unfoldable pub send_signal : Signal → ℤ → M S D Bool
  send_signal sig pid = do
    emit (signalled sig pid)
    answer ← system (k.killpg pid (some sig))
    lift (signal_answer answer)

  -- One round of the wait: it ends when the group is gone.
  unfoldable pub group_gone : ℤ → M S D (Option (Unit {0}))
  group_gone pid = do alive ← process_group_exists pid; pure (ends_wait alive)

  unfoldable pub survivor : Bool → M S D Unit
  survivor true = throw (runtime_error "The Session process group survived SIGKILL.")
  survivor false = pure tt

  unfoldable pub kill_group : ℤ → M S D Unit
  unfolding survivor
  kill_group pid = do
    there ← send_signal sigkill pid
    if there
        then (do
          poll_for k 50 stop_wait (group_gone pid)
          alive ← process_group_exists pid
          survivor alive)
        else pure tt

  unfoldable pub kill_unless_gone : ℤ → Option (Unit {0}) → M S D Unit
  kill_unless_gone pid (some _) = pure tt
  kill_unless_gone pid none = kill_group pid

  -- SIGTERM, five seconds, SIGKILL, five seconds.
  unfoldable pub terminate_posix_group : ℤ → M S D Unit
  unfolding kill_unless_gone
  terminate_posix_group pid =
      if is_positive pid
      then (do
        there ← send_signal sigterm pid
        if there
            then (do gone ← poll_for k 50 stop_wait (group_gone pid); kill_unless_gone pid gone)
            else pure tt)
      else throw (runtime_error "Refusing to signal a non-positive process group ID.")
