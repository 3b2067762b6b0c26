-- ===== src/Processes/Kernel.antt =====
-- What src/blendersessiond/processes.py asks of the operating system. A call gives an answer and
-- the state that the system has then; a read of the clock changes nothing.
use blendersessiond.Base.{ℕ, ℤ, String, Bool, Option, List}
use blendersessiond.Json.{File}
use blendersessiond.Exec.{Signal}

-- `os.name == "nt"` is `windows`; `sys.platform` tells the others apart.
pub data Platform : Type 0 where
  windows linux darwin other : Platform

-- `ProcBsdInfo`, as far as it is read; `complete` is that `proc_pidinfo` filled it.
pub record BsdInfo : Type 0 where
  pub complete : Bool
  pub pbi_pid : ℤ
  pub pbi_status : ℕ
  pub pbi_start_tvsec : ℕ
  pub pbi_start_tvusec : ℕ

-- The two FILETIMEs of `GetProcessTimes` that are read, each by its high and its low word.
pub record ProcessTimes : Type 0 where
  pub creation_high : ℕ
  pub creation_low : ℕ
  pub exit_high : ℕ
  pub exit_low : ℕ

-- `killpg`: done, `ProcessLookupError`, `PermissionError`.
pub data Kill : Type 0 where
  delivered no_group denied : Kill

-- A run of `taskkill.exe`: its exit code and its output, `TimeoutExpired`, an `OSError` of its
-- start, or the `UnicodeDecodeError` of its output.
pub data Taskkill : Type 0 where
  exited : ℕ → String → Taskkill
  timed_out : Taskkill
  not_started garbled : String → Taskkill

-- A text that is read: it, no text because of an `OSError` (for `ps` also because of a
-- `SubprocessError`), or the `UnicodeDecodeError` of its bytes.
pub data Read (A : Type 0) : Type 0 where
  readable : A → Read A
  unreadable : Read A
  undecodable : String → Read A

-- `getpgid`: the group, `ProcessLookupError`, or another `OSError`.
pub data Group : Type 0 where
  in_group : ℤ → Group
  no_process : Group
  refused : String → Group

-- An entry of /proc: its name, and what a read of its `stat` gives.
pub data Stat : Type 0 where
  content : String → Stat
  missing forbidden failed : Stat

-- `Path("/proc").iterdir()`: the entries, an `OSError` of the call, or an `OSError` of the first
-- step of the loop over it, where Python 3.11 and 3.12 list the directory.
pub data Listing : Type 0 where
  listed : List (String × Stat) → Listing
  not_listed : Listing
  listing_failed : String → Listing

pub record Kernel (S : Type 0) : Type 0 where
  pub platform : Platform
  pub now : S → ℕ
  pub sleep : ℕ → S → Unit {0} × S
  pub boot_id : S → Read String × S
  pub stat : ℤ → S → Read String × S
  pub ps : ℤ → S → Read (ℕ × String) × S
  pub bsd_info : ℤ → S → Option BsdInfo × S
  pub process_times : ℤ → S → Option ProcessTimes × S
  pub getpgid : ℤ → S → Group × S
  pub killpg : ℤ → Option Signal → S → Kill × S
  pub waitpid : ℤ → S → Unit {0} × S
  pub proc_entries : S → Listing × S
  pub taskkill : Bool → ℤ → S → Taskkill × S
  pub touch_gate : S → Unit {0} × S
  pub is_ready : S → Bool × S
  pub read_bootstrap : S → Option File × S
