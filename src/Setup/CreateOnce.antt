-- ===== src/Setup/CreateOnce.antt =====
-- The records and markers of an attempt in src/blendersessiond/setup_owner.py are created once.
use blendersessiond.Base.{
  String, ◌≡◌, refl, ◌∙◌, Bool, true, false, Option, none, some, List, ℕ, str_eq, eq_iff,
  if◌then◌else◌,
}
use blendersessiond.Exec.{World, M, file_lock, setup_lock}
use blendersessiond.Exec.Keeps.{Keeps}
use blendersessiond.Setup.Attempt.{
  SetupHost, Attempt, Attempts, RecordName, request_json, launch_receipt_json, terminal_json,
  content_of, with_content, Marker, dispatch_marker, stop_marker, is_marked, with_marker, change_at,
}
use blendersessiond.Setup.Written.{Stable}
use blendersessiond.Setup.Operations.{Locking}

-- A file that is there stays as it is.
abbrev pub Stays : Option (List ℕ) → Option (List ℕ) → Type 0
Stays none later = Unit
Stays (some bytes) later = later ≡ some bytes

abbrev pub StaysSet : Bool → Bool → Type 0
StaysSet false later = Unit
StaysSet true later = later ≡ true

pub record Grows (a b : Attempt) : Type 0 where
  pub contents : (name : RecordName) → Stays (content_of name a) (content_of name b)
  pub markers : (marker : Marker) → StaysSet (is_marked marker a) (is_marked marker b)

-- Every attempt has what it had.
pub record Extends (d e : Attempts) : Type 0 where
  pub at : (id : String) → Grows (d id) (e id)

Stays-refl : (c : Option (List ℕ)) → Stays c c
Stays-refl none = tt
Stays-refl (some bytes) = refl

StaysSet-refl : (b : Bool) → StaysSet b b
StaysSet-refl false = tt
StaysSet-refl true = refl

Stays-trans : (a b c : Option (List ℕ)) → Stays a b → Stays b c → Stays a c
Stays-trans none b c p q = tt
Stays-trans (some x) none c p q = cc
Stays-trans (some x) (some y) c p q = q ∙ p

StaysSet-trans : (a b c : Bool) → StaysSet a b → StaysSet b c → StaysSet a c
StaysSet-trans false b c p q = tt
StaysSet-trans true false c p q = cc
StaysSet-trans true true c p q = q

pub Extends-refl : (d : Attempts) → Extends d d
Extends-refl d = record {
  at = λ id. record {
    contents = λ name. Stays-refl (content_of name (d id));
    markers = λ marker. StaysSet-refl (is_marked marker (d id));
  };
}

pub Extends-trans : (d e f : Attempts) → Extends d e → Extends e f → Extends d f
Extends-trans d e f p q = record {
  at = λ id. record {
    contents = λ name.
        Stays-trans (content_of name (d id)) (content_of name (e id)) (content_of name (f id))
          ((p.at id).contents name) ((q.at id).contents name);
    markers = λ marker.
        StaysSet-trans (is_marked marker (d id)) (is_marked marker (e id)) (is_marked marker (f id))
          ((p.at id).markers marker) ((q.at id).markers marker);
  };
}

-- A change of one attempt that grows it extends all of them.
change_at-Extends :
    (id : String) (f : Attempt → Attempt) (d : Attempts)
    → Grows (d id) (f (d id))
    → Extends d (change_at id f d)
unfolding change_at
change_at-Extends id f d grows = record { at = λ i. go i (str_eq i id) (λ e. (eq_iff i id).0 e) }
  where
    go : (i : String) (b : Bool) → (b ≡ true → i ≡ id) → Grows (d i) (if b then f (d i) else d i)
    go i false found = (Extends-refl d).at i
    go i true found = rw (found refl) grows

written-Stays :
    (a : Attempt) (name : RecordName) (bytes : List ℕ)
    → content_of name a ≡ none
    → (other : RecordName)
    → Stays (content_of other a) (content_of other (with_content name bytes a))
written-Stays a request_json bytes missing request_json = rw missing tt
written-Stays a request_json bytes missing launch_receipt_json = Stays-refl a.launch_receipt
written-Stays a request_json bytes missing terminal_json = Stays-refl a.terminal
written-Stays a launch_receipt_json bytes missing request_json = Stays-refl a.request
written-Stays a launch_receipt_json bytes missing launch_receipt_json = rw missing tt
written-Stays a launch_receipt_json bytes missing terminal_json = Stays-refl a.terminal
written-Stays a terminal_json bytes missing request_json = Stays-refl a.request
written-Stays a terminal_json bytes missing launch_receipt_json = Stays-refl a.launch_receipt
written-Stays a terminal_json bytes missing terminal_json = rw missing tt

written-StaysSet :
    (a : Attempt) (name : RecordName) (bytes : List ℕ) (marker : Marker)
    → StaysSet (is_marked marker a) (is_marked marker (with_content name bytes a))
written-StaysSet a request_json bytes dispatch_marker = StaysSet-refl a.dispatch
written-StaysSet a request_json bytes stop_marker = StaysSet-refl a.stop
written-StaysSet a launch_receipt_json bytes dispatch_marker = StaysSet-refl a.dispatch
written-StaysSet a launch_receipt_json bytes stop_marker = StaysSet-refl a.stop
written-StaysSet a terminal_json bytes dispatch_marker = StaysSet-refl a.dispatch
written-StaysSet a terminal_json bytes stop_marker = StaysSet-refl a.stop

set-StaysSet : (b : Bool) → StaysSet b true
set-StaysSet false = tt
set-StaysSet true = refl

marked-Stays :
    (marker : Marker) (a : Attempt) (name : RecordName)
    → Stays (content_of name a) (content_of name (with_marker marker a))
marked-Stays dispatch_marker a request_json = Stays-refl a.request
marked-Stays dispatch_marker a launch_receipt_json = Stays-refl a.launch_receipt
marked-Stays dispatch_marker a terminal_json = Stays-refl a.terminal
marked-Stays stop_marker a request_json = Stays-refl a.request
marked-Stays stop_marker a launch_receipt_json = Stays-refl a.launch_receipt
marked-Stays stop_marker a terminal_json = Stays-refl a.terminal

marked-StaysSet :
    (marker : Marker) (a : Attempt) (other : Marker)
    → StaysSet (is_marked other a) (is_marked other (with_marker marker a))
marked-StaysSet dispatch_marker a dispatch_marker = set-StaysSet a.dispatch
marked-StaysSet dispatch_marker a stop_marker = StaysSet-refl a.stop
marked-StaysSet stop_marker a dispatch_marker = StaysSet-refl a.dispatch
marked-StaysSet stop_marker a stop_marker = set-StaysSet a.stop

-- The other processes, too, only create.
pub record OthersExtend {S : Type 0} (h : SetupHost S) : Type 0 where
  pub extend : (d : Attempts) (s : S) → Extends d (h.others d s).0

module _ {S : Type 0} (h : SetupHost S) (polite : OthersExtend h) (d : Attempts) where
  abbrev pub Grown : World S Attempts → Type 0
  Grown w = Extends d w.disk

  Grown-Stable : Stable h Grown
  Grown-Stable = record {
    blind = λ w s p. p;
    meanwhile = λ w p. Extends-trans d w.disk _ p (polite.extend w.disk w.os);
    wrote = λ w id name bytes missing may p. Extends-trans d w.disk _ p (
        change_at-Extends id (with_content name bytes) w.disk (record {
          contents = written-Stays (w.disk id) name bytes missing;
          markers = written-StaysSet (w.disk id) name bytes;
        }));
    marked = λ w id marker p. Extends-trans d w.disk _ p (
        change_at-Extends id (with_marker marker) w.disk (record {
          contents = marked-Stays marker (w.disk id);
          markers = marked-StaysSet marker (w.disk id);
        }));
    started = λ w pid p. p;
  }

  locked-Grown :
      {A : Type 0} (id : String) (body : M S Attempts A)
      → Keeps Grown body
      → Keeps Grown (file_lock (setup_lock id) body)
  unfolding file_lock
  locked-Grown id body inside = record { run = λ w p. inside.run _ p }

  pub Grown-Locking : Locking h Grown (λ id. Grown)
  Grown-Locking = record {
    outside = Grown-Stable;
    inside = λ id. Grown-Stable;
    locked = locked-Grown;
  }
