-- ===== src/Discovery/Host.antt =====
-- What src/blendersessiond/discovery.py asks of its host: files, the runs of `blender --version`,
-- and the path functions of `ntpath` and `posixpath`.
use blendersessiond.Base.{ℕ, String, Bool, Option, List}
use blendersessiond.Exec.{Error}

-- A run of the executable: its exit code and output, or the exception.
pub data VersionRun : Type 0 where
  completed : ℕ → String → String → VersionRun
  run_failed : Error → VersionRun

pub record PathModule : Type 0 where
  pub abspath : String → String
  pub normpath : String → String
  pub normcase : String → String
  pub dirname : String → String
  pub isabs : String → Bool
  pub join : String → String → String

pub record Host (S : Type 0) : Type 0 where
  pub is_file : String → S → Bool × S
  pub can_execute : String → S → Bool × S
  pub glob : String → S → List String × S
  pub which : Option (String → S → Option String × S)
  pub run_version : String → S → VersionRun × S
  pub expanduser : String → String
  pub ntpath : PathModule
  pub posixpath : PathModule
