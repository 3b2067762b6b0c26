-- ===== src/Setup/Terminals.antt =====
-- Terminal records of src/blendersessiond/setup_owner.py survive being written and read.
use text.Mathlib.TextPositions.{eq_refl}
use mathlib.Core.Path.{subst}
use blendersessiond.Base.{
  ◌≡◌, refl, sym, arith, ◌==◌, ℕ, ℤ, between, int_eq_iff, String, Bool, true, false, ◌&&◌, Option,
  none, some, leb, length, codes,
}
use blendersessiond.Json.{str, Fields, get}
use blendersessiond.Json.Equal.{dict_eq, json_eq, within, size, bool_eq}
use blendersessiond.Exec.{ok}
use blendersessiond.Setup.Codec.{Codec, format_time, max_output_bytes}
use blendersessiond.Setup.Records.{
  SetupRequest, SetupTerminal, Outcome, TerminalProcess, Cleanup, launch_failed, process_failed,
  process_succeeded, stopped, stopped_before_ownership, cancelled_before_resume, exited, failed,
  not_resumed, not_started, tree_gone, outcome_text, process_text, cleanup_text, exit_json,
  text_json, message_field, terminal_dict, terminal_fields, terminal_values,
}
use blendersessiond.Setup.Semantics.{terminal_semantics_are_valid}
use blendersessiond.Setup.Stored.{
  outcomes, processes, cleanups, named, member_of, exit_code_of, message_of, utf8_length, or_null,
  stored_values, checked_terminal, terminal_from_record,
}
use blendersessiond.Setup.Times.{CodecLaws, parse_time-format_time}

abbrev InRange : Option ℤ → Type 0
InRange none = Unit
InRange (some z) = between 0 4294967295 z ≡ true

abbrev IsShort : Option String → Type 0
IsShort none = Unit
IsShort (some s) = leb (length (codes s)) 4096 ≡ true

-- A terminal of this request, with valid semantics, an exit code of 32 bits, outputs of at most
-- 24576 bytes and a message of at most 4096 characters.
pub record IsValidTerminal (request : SetupRequest) (t : SetupTerminal) : Type 0 where
  pub attempt : t.attempt_id ≡ request.attempt_id
  pub launch : t.launch_id ≡ request.launch_id
  pub digest : t.request_sha256 ≡ request.request_sha256
  pub exit : InRange t.exit_code
  pub stdout : leb (utf8_length (codes t.stdout)) max_output_bytes ≡ true
  pub stderr : leb (utf8_length (codes t.stderr)) max_output_bytes ≡ true
  pub message : IsShort t.message
  pub semantics : terminal_semantics_are_valid t ≡ true

member_of-outcome_text : (o : Outcome) → member_of outcomes (str (outcome_text o)) ≡ ok o
unfolding member_of outcomes outcome_text named
member_of-outcome_text Outcome.cancelled = refl
member_of-outcome_text Outcome.cleanup_unverified = refl
member_of-outcome_text launch_failed = refl
member_of-outcome_text Outcome.owner_lost = refl
member_of-outcome_text process_failed = refl
member_of-outcome_text process_succeeded = refl
member_of-outcome_text stopped = refl
member_of-outcome_text stopped_before_ownership = refl
member_of-outcome_text Outcome.timed_out = refl

member_of-process_text : (p : TerminalProcess) → member_of processes (str (process_text p)) ≡ ok p
unfolding member_of processes process_text named
member_of-process_text TerminalProcess.cancelled = refl
member_of-process_text cancelled_before_resume = refl
member_of-process_text exited = refl
member_of-process_text failed = refl
member_of-process_text not_resumed = refl
member_of-process_text not_started = refl
member_of-process_text TerminalProcess.owner_lost = refl
member_of-process_text TerminalProcess.timed_out = refl

member_of-cleanup_text : (c : Cleanup) → member_of cleanups (str (cleanup_text c)) ≡ ok c
unfolding member_of cleanups cleanup_text named
member_of-cleanup_text Cleanup.cleanup_unverified = refl
member_of-cleanup_text tree_gone = refl

exit_code_of-exit_json : (z : Option ℤ) → InRange z → exit_code_of (exit_json z) ≡ ok z
exit_code_of-exit_json none h = refl
exit_code_of-exit_json (some z) h = rw h

message_of-text_json : (m : Option String) → IsShort m → message_of (text_json m) ≡ ok m
message_of-text_json none h = refl
message_of-text_json (some s) h = rw h

json_eq-exit_json : (z : Option ℤ) → json_eq (exit_json z) (exit_json z) ≡ true
unfolding json_eq
json_eq-exit_json none = refl
json_eq-exit_json (some z) = (int_eq_iff z z).1 refl

bool_eq_refl : (b : Bool) → bool_eq b b ≡ true
bool_eq_refl true = refl
bool_eq_refl false = refl

stored_message :
    (m : Option String) → or_null (get "message" (message_field (text_json m))) ≡ text_json m
unfolding get
stored_message none = refl
stored_message (some s) = refl

within-message :
    (m : Option String) (others : Fields)
    → get "message" others ≡ text_json m
    → within (message_field (text_json m)) others ≡ true
unfolding within json_eq
within-message none others h = refl
within-message (some s) others h =
    subst (λ o. (elim o [ none ↦ false | some w ↦ json_eq (str s) w && true ]) ≡ true) (sym h)
      (rw (eq_refl s))

same_size : (n : ℕ) → (n == n) ≡ true
same_size n = ground arith

module _ (c : Codec) (laws : CodecLaws c) where
  stored_values-terminal_dict :
      (t : SetupTerminal)
      → stored_values c (terminal_dict c t) ≡ ok (terminal_values c t, t.finished_at)
  unfolding stored_values terminal_dict terminal_values terminal_fields get
  stored_values-terminal_dict t =
      rw (parse_time-format_time c laws t.finished_at "finished_at", stored_message t.message)

  terminal_dict-dict_eq :
      (t : SetupTerminal)
      → dict_eq (terminal_dict c t) (terminal_fields (terminal_values c t)) ≡ true
  unfolding dict_eq json_eq terminal_dict terminal_values terminal_fields get size
  terminal_dict-dict_eq t = rw (
    same_size (size (terminal_dict c t)),
    eq_refl t.attempt_id,
    eq_refl t.launch_id,
    eq_refl t.request_sha256,
    eq_refl (outcome_text t.outcome),
    eq_refl (process_text t.process),
    eq_refl (cleanup_text t.cleanup),
    json_eq-exit_json t.exit_code,
    eq_refl t.stdout,
    eq_refl t.stderr,
    bool_eq_refl t.stdout_truncated,
    bool_eq_refl t.stderr_truncated,
    eq_refl (format_time c t.finished_at),
    within-message t.message (terminal_dict c t) (present t.message),
  )
    where
      present :
          (m : Option String)
          → get "message" (terminal_dict c (record t { message = m })) ≡ text_json m
      present none = refl
      present (some m) = refl

  checked :
      (t : SetupTerminal) (request : SetupRequest)
      → IsValidTerminal request t
      → checked_terminal c (terminal_dict c t) request (terminal_values c t) t.finished_at ≡ ok t
  unfolding checked_terminal terminal_values
  checked t request v = rw (
    terminal_dict-dict_eq t,
    sym v.attempt,
    sym v.launch,
    sym v.digest,
    eq_refl t.attempt_id,
    eq_refl t.launch_id,
    eq_refl t.request_sha256,
    member_of-outcome_text t.outcome,
    member_of-process_text t.process,
    member_of-cleanup_text t.cleanup,
    exit_code_of-exit_json t.exit_code v.exit,
    v.stdout,
    v.stderr,
    message_of-text_json t.message v.message,
    v.semantics,
  )

  -- A valid terminal of a request that is written and read again is the same terminal, where times
  -- have the format that the standard library documents.
  pub terminal_from_record-terminal_dict :
      (t : SetupTerminal) (request : SetupRequest)
      → IsValidTerminal request t
      → terminal_from_record c (terminal_dict c t) request ≡ ok t
  unfolding terminal_from_record
  terminal_from_record-terminal_dict t request v =
      rw (stored_values-terminal_dict t) (checked t request v)
