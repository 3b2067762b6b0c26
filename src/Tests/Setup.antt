-- ===== src/Tests/Setup.antt =====
-- The theorems of Setup and Cli at concrete inputs.
use blendersessiond.Base.{
  ◌||◌, ltb, length, ℕ, zero, suc, ap, refl, ◌<>◌, String, none, some, ◌≡◌, ◌⊎◌, Bool, true, false,
  [], ◌∷◌, str_eq, if◌then◌else◌,
}
use blendersessiond.Exec.{ok}
use blendersessiond.Exec.Keeps.{Keeps}
use blendersessiond.Exec.Ends.{Ended, Ends}
use blendersessiond.Exec.Locks.{Disciplined}
use blendersessiond.Setup.Launch.{launch_setup}
use blendersessiond.Setup.Stop.{status_setup, stop_setup}
use blendersessiond.Setup.CreateOnce.{Extends, Extends-refl, OthersExtend}
use blendersessiond.Setup.ValidTerminals.{TerminalsValid, OthersValid, IsWritten}
use blendersessiond.Setup.LaunchAnswers.{LaunchAnswer, launch_setup-Settles}
use blendersessiond.Setup.Fenced.{IsExpected, StopAnswer, status_setup-Fenced, stop_setup-Final}
use blendersessiond.Cli.SetupOwner.{SetupCommand, launch, stop, main}
use blendersessiond.Cli.Guarantees.{
  command, keeper, run, run-Extends, run-TerminalsValid, run-Disciplined,
}
use blendersessiond.Cli.Sessions.{status_command, stop_command}
use blendersessiond.Cli.ExitCodes.{
  ShowsHealthy, status_command-Healthy, status_command-IsTotal, stop_command-Removed,
}
use blendersessiond.Exec.Raises.{IsTotal}
use blendersessiond.Sessions.Name.{validate_session_name, hex}
use blendersessiond.Sessions.Removed.{Removed}
use blendersessiond.Tests.Machine.{machine, launcher, current_id, one_session}
use blendersessiond.Wire.Utf8.{decode}
use blendersessiond.Json.{get}
use blendersessiond.Json.Strict.{is_strict}
use blendersessiond.Setup.Drain.{chunk, failed, take, drain, contents, broke_off, drain-contents}
use blendersessiond.Setup.Codec.{
  max_output_bytes, strict_json, validate_attempt_id, validate_launch_id, parse_time,
  validate_sha256, without_last,
}
use blendersessiond.Setup.Records.{
  SetupTerminal, Outcome, TerminalProcess, Cleanup, owned, request_dict, terminal_dict,
}
use blendersessiond.Setup.Semantics.{terminal_semantics_are_valid}
use blendersessiond.Setup.Parse.{parse_request, without_names, same_names, request_from_record}
use blendersessiond.Setup.Stored.{terminal_from_record, utf8_length}
use blendersessiond.Setup.Times.{CodecLaws}
use blendersessiond.Setup.Requests.{
  IsParsed, parse_request-IsParsed, request_from_record-request_dict,
}
use blendersessiond.Setup.Terminals.{IsValidTerminal, terminal_from_record-terminal_dict}
use text.Mathlib.TextLemmas.{nil-append, cons-append}
use blendersessiond.Cli.Reports.{Stopped, Launched, main-Stopped, main-Launched}
use blendersessiond.Tests.SetupMachine.{
  quiet_keeper, attempt_id, launch_id, request_sha256, quiet_host, one_attempt, attempts,
  accepted_request, byte_codec, ticks, count,
}

abbrev stop_it : SetupCommand
stop_it = stop attempt_id request_sha256 launch_id

quiet_host-Extends : OthersExtend quiet_host
quiet_host-Extends = record { extend = λ d s. Extends-refl d }

quiet_host-Valid : OthersValid quiet_host
quiet_host-Valid = record { valid = λ d s p. p }

attempts-Valid : TerminalsValid quiet_host attempts
attempts-Valid = record { at = λ id. go (str_eq id attempt_id) }
  where
    go :
        (b : Bool)
        → IsWritten quiet_host
            (if b
              then blendersessiond.Tests.SetupMachine.accepted_attempt
              else blendersessiond.Tests.SetupMachine.no_attempt).terminal
    go true = tt
    go false = tt

launch_setup-Settles_example :
    Ends (λ view _. LaunchAnswer quiet_host (1 ∷ []) view) (launch_setup quiet_host (1 ∷ []))
launch_setup-Settles_example = launch_setup-Settles quiet_host (1 ∷ [])

status_setup-Fenced_example :
    Ends
      (λ view _. IsExpected request_sha256 launch_id view.request)
      (status_setup quiet_host attempt_id request_sha256 launch_id)
status_setup-Fenced_example = status_setup-Fenced quiet_host attempt_id request_sha256 launch_id

stop_setup-Final_example :
    Ends
      (λ view _. StopAnswer request_sha256 launch_id view)
      (stop_setup quiet_host attempt_id request_sha256 launch_id)
stop_setup-Final_example = stop_setup-Final quiet_host attempt_id request_sha256 launch_id

run-Extends_example : Extends attempts (run quiet_keeper (keeper attempt_id) one_attempt).1.disk
run-Extends_example = run-Extends quiet_keeper quiet_host-Extends (keeper attempt_id) one_attempt

run-TerminalsValid_example :
    TerminalsValid quiet_host (run quiet_keeper (keeper attempt_id) one_attempt).1.disk
run-TerminalsValid_example =
    run-TerminalsValid quiet_keeper quiet_host-Valid (keeper attempt_id) one_attempt attempts-Valid

run-Disciplined_example : Keeps (Disciplined []) (run quiet_keeper (command stop_it))
run-Disciplined_example = run-Disciplined quiet_keeper (command stop_it)

main-Stopped_example :
    Ended
      (λ out _.
        (out.0 ≡ 1) ⊎ Stopped quiet_host attempt_id request_sha256 launch_id one_attempt out)
      (main quiet_host stop_it one_attempt)
main-Stopped_example = main-Stopped quiet_host attempt_id request_sha256 launch_id one_attempt

main-Launched_example :
    Ends
      (λ out _. (out.0 ≡ 1) ⊎ Launched quiet_host (1 ∷ []) out.1)
      (main quiet_host (launch (1 ∷ [])))
main-Launched_example = main-Launched quiet_host (1 ∷ [])

count-ticks : (t : ℕ) (s : String) → count s ≡ 0 → count (ticks t <> s) ≡ t
unfolding count ticks
count-ticks zero s h = rw (nil-append s) h
count-ticks (suc t) s h = rw (cons-append "a" (ticks t) s) (ap suc (count-ticks t s h))

byte_laws : CodecLaws byte_codec
unfolding count
byte_laws = record {
  iso = λ t. ap some (count-ticks t "+00:00" refl);
  hex = λ bytes. refl;
  width = λ bytes. refl;
}

parses : parse_request byte_codec (2 ∷ []) ≡ ok accepted_request
unfolding parse_request strict_json decode is_strict without_names get validate_attempt_id
    validate_launch_id parse_time same_names validate_sha256 count without_last
parses = refl

parse_request-IsParsed_example : IsParsed byte_codec (2 ∷ []) accepted_request
parse_request-IsParsed_example = parse_request-IsParsed byte_codec (2 ∷ []) accepted_request parses

request_from_record-request_dict_example :
    request_from_record byte_codec (request_dict byte_codec accepted_request) ≡ ok accepted_request
request_from_record-request_dict_example =
    request_from_record-request_dict byte_codec byte_laws (2 ∷ []) accepted_request parses

abbrev lost : SetupTerminal
lost =
    owned accepted_request Outcome.cleanup_unverified TerminalProcess.owner_lost
      Cleanup.cleanup_unverified 7 none

lost-IsValidTerminal : IsValidTerminal accepted_request lost
unfolding owned terminal_semantics_are_valid utf8_length
lost-IsValidTerminal = record {
  attempt = refl;
  launch = refl;
  digest = refl;
  exit = tt;
  stdout = refl;
  stderr = refl;
  message = tt;
  semantics = refl;
}

terminal_from_record-terminal_dict_example :
    terminal_from_record byte_codec (terminal_dict byte_codec lost) accepted_request ≡ ok lost
terminal_from_record-terminal_dict_example =
    terminal_from_record-terminal_dict byte_codec byte_laws lost accepted_request
      lost-IsValidTerminal

default-valid : validate_session_name "default" ≡ ok "default"
unfolding validate_session_name
default-valid = refl

status_command-Healthy_example :
    Ended
      (λ out _. (out.0 ≡ 1) ⊎ ShowsHealthy machine "default" one_session out)
      (status_command machine (some "default") one_session)
status_command-Healthy_example = status_command-Healthy machine "default" one_session

status_command-IsTotal_example : IsTotal (status_command machine (some "default"))
status_command-IsTotal_example = status_command-IsTotal machine "default"

stop_command-Removed_example :
    Ends
      (λ out w. (out.0 ≡ 1) ⊎ Removed (hex "default") w.disk)
      (stop_command machine launcher "default" current_id)
stop_command-Removed_example =
    stop_command-Removed machine launcher "default" current_id default-valid

drain-contents_example : drain (chunk (72 ∷ 105 ∷ []) failed) ≡ (
  take max_output_bytes (contents (chunk (72 ∷ 105 ∷ []) failed)),
  broke_off (chunk (72 ∷ 105 ∷ []) failed)
      || ltb max_output_bytes (length (contents (chunk (72 ∷ 105 ∷ []) failed))),
)
drain-contents_example = drain-contents (chunk (72 ∷ 105 ∷ []) failed)
