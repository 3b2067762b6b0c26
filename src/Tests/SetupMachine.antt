-- ===== src/Tests/SetupMachine.antt =====
-- A Windows host with one Setup Attempt whose request is accepted. Its state is the clock.
use Prim.Native.Char.{code}
use blendersessiond.Base.{
  ℕ, zero, suc, pos, String, true, false, Option, none, some, List, [], ◌∷◌, ◌==◌, str_eq,
  if◌then◌else◌,
}
use blendersessiond.Json.{Json, int, str, obj, Fields, field, end}
use blendersessiond.Exec.{World, ok}
use blendersessiond.Setup.Drain.{chunk, closed, decoded}
use blendersessiond.Setup.Keeper.{KeeperHost, file_read}
use blendersessiond.Processes.Kernel.{windows}
use blendersessiond.Sessions.Launch.{running}
use blendersessiond.Setup.Codec.{Codec}
use blendersessiond.Setup.Records.{SetupRequest, request_dict}
use blendersessiond.Setup.Attempt.{
  SetupHost, Attempt, Attempts, opened, wait_timeout, object_signalled,
}
use blendersessiond.Tests.Machine.{clock_kernel}

abbrev pub attempt_id : String
attempt_id = "bbsa_abcdefghijklmnopqrstuvwxyz0123456789ABCDEFG"

abbrev pub launch_id : String
launch_id = "bbsl_abcdefghijklmnopqrstuvwxyz0123456789ABCDEFG"

abbrev pub request_sha256 : String
request_sha256 = "0123456789abcdef0123456789abcdef0123456789abcdef0123456789abcdef"

abbrev pub accepted_request : SetupRequest
accepted_request = record {
  attempt_id = attempt_id;
  launch_id = launch_id;
  deadline_utc = 5;
  operation_revision = "windows-setup-owner-v1";
  script = record {
    artifact_id = "bbsa_abcdefghijklmnopqrstuvwxyz0123456789ABCDEFG.ps1";
    size = pos 100;
    sha256 = request_sha256;
  };
  request_sha256 = request_sha256;
}

-- A time is written with as many letters.
unfoldable pub ticks : ℕ → String
ticks zero = ""
ticks (suc n) = String.◌∷◌ "a" (ticks n)

unfoldable pub count : String → ℕ
count String.[] = 0
count (String.◌∷◌ c s) = let rest = count s in if code c == 97 then suc rest else 0

-- A codec without contents, for the dict of the request.
abbrev pub plain_codec : Codec
plain_codec = record {
  loads = λ cs. none;
  dumps = λ v. 1 ∷ [];
  sha256 = λ bytes. request_sha256;
  isoformat = ticks;
  fromisoformat = λ s. some (count s);
  sorted_repr = λ names. "[]";
}

-- The request as it is sent.
abbrev sent : Fields
sent = field "schema_version" (int (pos 1)) (
    field "attempt_id" (str attempt_id) (
      field "launch_id" (str launch_id) (
        field "deadline_utc" (str "aaaaaZ") (
          field "operation_revision" (str "windows-setup-owner-v1") (
            field "script"
              (obj (
                field "artifact_id" (str "bbsa_abcdefghijklmnopqrstuvwxyz0123456789ABCDEFG.ps1")
                  (field "size" (int (pos 100)) (field "sha256" (str request_sha256) end))))
              end)))))

-- One byte stands for the record of the request, another for the request as it is sent.
abbrev request_of_byte : List ℕ → Option Json
request_of_byte (c ∷ []) =
    if c == 1
    then some (obj (request_dict plain_codec accepted_request))
    else if c == 2
    then some (obj sent)
    else none
request_of_byte _ = none

abbrev pub byte_codec : Codec
byte_codec = record plain_codec { loads = request_of_byte }

abbrev pub quiet_host : SetupHost ℕ
quiet_host = record {
  kernel = record clock_kernel {
    platform = windows;
    process_times = λ pid s.
        (some (record { creation_high = 0; creation_low = 777; exit_high = 0; exit_low = 0 }), s);
  };
  codec = byte_codec;
  system_name = "Windows";
  guard_path = λ s. (none, s);
  storage = λ s. (none, s);
  utc_now = λ s. (s, s);
  others = λ d s. (d, s);
  spawn_keeper = λ id s. (running (pos 50), s);
  open_process = λ pid s. (opened, s);
  creation_filetime = λ pid s. (some 777, s);
  wait_process = λ pid s. (wait_timeout, s);
  terminate_process = λ pid s. (none, s);
}

abbrev pub no_attempt : Attempt
no_attempt = record {
  request = none;
  launch_receipt = none;
  terminal = none;
  dispatch = false;
  stop = false;
}

abbrev pub accepted_attempt : Attempt
accepted_attempt = record no_attempt { request = some (1 ∷ []) }

abbrev pub attempts : Attempts
attempts i = if str_eq i attempt_id then accepted_attempt else no_attempt

abbrev pub one_attempt : World ℕ Attempts
one_attempt = record { os = 0; disk = attempts; held = []; events = [] }

unfoldable pub letters : ℕ → List ℕ
letters zero = []
letters (suc n) = 97 ∷ letters n

abbrev pub quiet_keeper : KeeperHost ℕ
quiet_keeper = record {
  setup = quiet_host;
  getpid = pos 50;
  staged = λ id s. (
    file_read (record { is_regular = true; is_same = true; size = 100; content = letters 100 }),
    s,
  );
  create_suspended =
      λ request s. (ok (record { root_pid = pos 60; root_creation_filetime = 777 }), s);
  terminate = λ s. (ok tt, s);
  wait_empty = λ s. (ok tt, s);
  start_io = λ script s. (ok tt, s);
  finish_io = λ s. (ok tt, s);
  resume = λ s. (ok tt, s);
  close = λ s. (ok tt, s);
  empty = λ s. (ok true, s);
  wait_root = λ ms s. (object_signalled, s);
  exit_code = λ s. (ok 0, s);
  output_reads = λ s. ((chunk (72 ∷ 105 ∷ []) closed, closed), s);
  strict = λ bytes. decoded "Hi";
}
