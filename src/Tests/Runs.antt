-- ===== src/Tests/Runs.antt =====
-- A run of a setup command that succeeds.
use blendersessiond.Base.{ℕ, ◌≡◌, refl}
use blendersessiond.Json.{Fields}
use blendersessiond.Exec.{Result, ok, err}
use blendersessiond.Cli.SetupOwner.{stop, main}
use blendersessiond.Tests.SetupMachine.{
  attempt_id, launch_id, request_sha256, quiet_host, one_attempt,
}

abbrev exit_of : Result (ℕ × Fields) → ℕ
exit_of (ok out) = out.0
exit_of (err e) = 9

-- The stop of an attempt that was not dispatched succeeds.
undispatched_stop :
    exit_of (main quiet_host (stop attempt_id request_sha256 launch_id) one_attempt).0 ≡ 0
unfolding main blendersessiond.Exec.catch blendersessiond.Exec.◌>>=◌
    blendersessiond.Cli.SetupOwner.perform blendersessiond.Setup.Stop.stop_setup
    blendersessiond.Setup.Launch.require_windows blendersessiond.Exec.pure blendersessiond.Exec.lift
    blendersessiond.Setup.Codec.validate_attempt_id blendersessiond.Setup.View.load_request
    blendersessiond.Setup.Attempt.read_optional_record blendersessiond.Setup.Attempt.guarded
    blendersessiond.Exec.system blendersessiond.Setup.Attempt.interleave blendersessiond.Exec.reads
    blendersessiond.Setup.Attempt.record_payload blendersessiond.Setup.Codec.strict_json
    blendersessiond.Wire.Utf8.decode blendersessiond.Json.Strict.is_strict
    blendersessiond.Setup.Records.request_dict blendersessiond.Json.get
    blendersessiond.Setup.Parse.request_from_record blendersessiond.Setup.Parse.same_names
    blendersessiond.Setup.Parse.without_names blendersessiond.Setup.Codec.validate_launch_id
    blendersessiond.Setup.Codec.parse_time blendersessiond.Setup.Codec.format_time
    blendersessiond.Tests.SetupMachine.ticks blendersessiond.Setup.Codec.validate_sha256
    blendersessiond.Json.Equal.dict_eq blendersessiond.Tests.SetupMachine.count
    blendersessiond.Setup.Codec.without_last blendersessiond.Setup.View.check_fence
    blendersessiond.Setup.Attempt.with_setup_lock blendersessiond.Exec.file_lock
    blendersessiond.Setup.View.read_view blendersessiond.Setup.Stop.stop_under_lock
    blendersessiond.Setup.Records.accepted_view blendersessiond.Exec.without
    blendersessiond.Setup.Attempt.marker_exists blendersessiond.Setup.View.write_terminal
    blendersessiond.Setup.Attempt.write_create_once blendersessiond.Setup.Codec.encode_record
    blendersessiond.Exec.writes blendersessiond.Cli.SetupOwner.exit_code
    blendersessiond.Setup.Records.terminal_view blendersessiond.Setup.Records.owned
undispatched_stop = refl
