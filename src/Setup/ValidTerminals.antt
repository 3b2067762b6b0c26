-- ===== src/Setup/ValidTerminals.antt =====
-- Each terminal record that src/blendersessiond/setup_owner.py writes passes its own
-- `_terminal_semantics_are_valid`.
use blendersessiond.Base.{
  String, ◌≡◌, refl, Bool, true, false, Option, none, some, List, ℕ, str_eq, eq_iff, if◌then◌else◌,
}
use blendersessiond.Exec.{World, M, file_lock, setup_lock}
use blendersessiond.Exec.Keeps.{Keeps}
use blendersessiond.Setup.Attempt.{
  SetupHost, Attempt, Attempts, RecordName, request_json, launch_receipt_json, terminal_json,
  with_content, Marker, dispatch_marker, stop_marker, with_marker, change_at,
}
use blendersessiond.Setup.Written.{Stable, May, Written}
use blendersessiond.Setup.Operations.{Locking}

module _ {S : Type 0} (h : SetupHost S) where
  abbrev pub IsWritten : Option (List ℕ) → Type 0
  IsWritten none = Unit
  IsWritten (some bytes) = Written h bytes

  -- Each terminal record is the encoding of a terminal with valid semantics.
  pub record TerminalsValid (d : Attempts) : Type 0 where
    pub at : (id : String) → IsWritten (d id).terminal

  -- The other processes, too, write no other.
  pub record OthersValid : Type 0 where
    pub valid : (d : Attempts) (s : S) → TerminalsValid d → TerminalsValid (h.others d s).0

  changed :
      (id : String) (f : Attempt → Attempt) (d : Attempts)
      → IsWritten (f (d id)).terminal
      → TerminalsValid d
      → TerminalsValid (change_at id f d)
  unfolding change_at
  changed id f d new old = record { at = λ i. go i (str_eq i id) (λ e. (eq_iff i id).0 e) }
    where
      go :
          (i : String) (b : Bool)
          → (b ≡ true → i ≡ id)
          → IsWritten (if b then f (d i) else d i).terminal
      go i false found = old.at i
      go i true found = rw (found refl) new

  IsWritten-with_content :
      (a : Attempt) (name : RecordName) (bytes : List ℕ)
      → May h name bytes
      → IsWritten a.terminal
      → IsWritten (with_content name bytes a).terminal
  IsWritten-with_content a request_json bytes may old = old
  IsWritten-with_content a launch_receipt_json bytes may old = old
  IsWritten-with_content a terminal_json bytes may old = may

  IsWritten-with_marker :
      (a : Attempt) (marker : Marker)
      → IsWritten a.terminal
      → IsWritten (with_marker marker a).terminal
  IsWritten-with_marker a dispatch_marker old = old
  IsWritten-with_marker a stop_marker old = old

  module _ (others : OthersValid) where
    abbrev pub Valid : World S Attempts → Type 0
    Valid w = TerminalsValid w.disk

    Valid-Stable : Stable h Valid
    Valid-Stable = record {
      blind = λ w s p. p;
      meanwhile = λ w p. others.valid w.disk w.os p;
      wrote = λ w id name bytes missing may p.
          changed id (with_content name bytes) w.disk
            (IsWritten-with_content (w.disk id) name bytes may (p.at id)) p;
      marked = λ w id marker p.
          changed id (with_marker marker) w.disk
            (IsWritten-with_marker (w.disk id) marker (p.at id)) p;
      started = λ w pid p. p;
    }

    locked-Valid :
        {A : Type 0} (id : String) (body : M S Attempts A)
        → Keeps Valid body
        → Keeps Valid (file_lock (setup_lock id) body)
    unfolding file_lock
    locked-Valid id body inside = record { run = λ w p. inside.run _ p }

    pub Valid-Locking : Locking h Valid (λ id. Valid)
    Valid-Locking = record {
      outside = Valid-Stable;
      inside = λ id. Valid-Stable;
      locked = locked-Valid;
    }
