-- ===== src/Setup/Written.antt =====
-- The steps that src/blendersessiond/setup_owner.py makes on the directory of an attempt: what the
-- other processes do, a record file that is new, a marker, a keeper that is started.
use blendersessiond.Base.{ℤ, String, ◌≡◌, refl, Bool, true, false, Option, none, some, List, ◌∷◌, ℕ}
use blendersessiond.Json.{Fields}
use blendersessiond.Exec.{
  World, Result, ok, err, M, Error, spawned, os_error, timeout_error, throw, reads, lift, ◌>>=◌,
  ◌>>◌, system, writes,
}
use blendersessiond.Exec.Keeps.{
  Keeps, keeps_rules, Keeps-if, Keeps-bind, Keeps-system, Keeps-writes, Keeps-throw, Keeps-pure,
  Keeps-catch,
}
use blendersessiond.Setup.Codec.{encode_record}
use blendersessiond.Setup.Records.{SetupTerminal, terminal_dict}
use blendersessiond.Setup.Semantics.{terminal_semantics_are_valid}
use blendersessiond.Setup.Attempt.{
  SetupHost, Attempts, RecordName, request_json, launch_receipt_json, terminal_json, content_of,
  with_content, Marker, with_marker, change_at, holds_none, meanwhile, interleave, as_setup_error,
  guarded_by, guarded, read_optional_record, marker_exists, stored_or, publish_if_new, mark_if_new,
  write_create_once, touch_create_once,
}

module _ {S : Type 0} (h : SetupHost S) where
  -- The bytes of a terminal record are those of a terminal with valid semantics.
  pub record Written (bytes : List ℕ) : Type 0 where
    pub terminal : SetupTerminal
    pub valid : terminal_semantics_are_valid terminal ≡ true
    pub encoded : encode_record h.codec (terminal_dict h.codec terminal) ≡ ok bytes

  -- What may be written into a record file.
  abbrev pub May : RecordName → List ℕ → Type 0
  May request_json bytes = Unit
  May launch_receipt_json bytes = Unit
  May terminal_json bytes = Written bytes

  -- `P` survives each step.
  pub record Stable (P : World S Attempts → Type 0) : Type 0 where
    pub blind : (w : World S Attempts) (s : S) → P w → P (record w { os = s })
    pub meanwhile :
        (w : World S Attempts)
        → P w
        → P (record w { disk = (h.others w.disk w.os).0; os = (h.others w.disk w.os).1 })
    pub wrote :
        (w : World S Attempts) (id : String) (name : RecordName) (bytes : List ℕ)
        → content_of name (w.disk id) ≡ none
        → May name bytes
        → P w
        → P (record w { disk = change_at id (with_content name bytes) w.disk })
    pub marked :
        (w : World S Attempts) (id : String) (marker : Marker)
        → P w
        → P (record w { disk = change_at id (with_marker marker) w.disk })
    pub started :
        (w : World S Attempts) (pid : ℤ) → P w → P (record w { events = spawned pid ∷ w.events })

  module _ (P : World S Attempts → Type 0) (stable : Stable P) where
    others-keep : (w : World S Attempts) (free : Bool) → P w → P (meanwhile h free w)
    others-keep w true p = stable.meanwhile w p
    others-keep w false p = p

    pub interleave-keeps : Keeps P (interleave h)
    unfolding interleave
    interleave-keeps = record { run = λ w. others-keep w (holds_none w.held) }

    module _ {A : Type 0} where
      as_setup_error-keeps : (e : Error) → Keeps P (as_setup_error h {A = A} e)
      unfolding as_setup_error
      as_setup_error-keeps (os_error m) = Keeps-throw _
      as_setup_error-keeps (timeout_error m) = Keeps-throw _
      as_setup_error-keeps _ = Keeps-throw _

      guarded_by-keeps :
          (refused : Option String) (body : M S Attempts A)
          → Keeps P body
          → Keeps P (guarded_by h refused body)
      unfolding guarded_by
      guarded_by-keeps none body inside = Keeps-catch _ _ inside as_setup_error-keeps
      guarded_by-keeps (some m) body inside = Keeps-throw _

      pub guarded-keeps : (body : M S Attempts A) → Keeps P body → Keeps P (guarded h body)
      unfolding guarded
      guarded-keeps body inside =
          Keeps-if _ _ _
            (Keeps-bind _ _ (Keeps-system stable.blind _)
              λ refused. guarded_by-keeps refused body inside)
            inside

    pub read_optional_record-keeps :
        (id : String) (name : RecordName) → Keeps P (read_optional_record h id name)
    unfolding read_optional_record
    read_optional_record-keeps id name =
        search (keeps_rules, guarded-keeps, interleave-keeps) depth 9

    pub marker_exists-keeps : (id : String) (marker : Marker) → Keeps P (marker_exists h id marker)
    unfolding marker_exists
    marker_exists-keeps id marker = search (keeps_rules, guarded-keeps, interleave-keeps) depth 9

    stored_or-keeps : (trouble : Option String) → Keeps P (stored_or h trouble)
    stored_or-keeps none = Keeps-pure _
    stored_or-keeps (some m) = Keeps-throw _

    -- The file is written only when the read found none.
    publish-keeps :
        (id : String) (name : RecordName) (bytes : List ℕ)
        → May name bytes
        → Keeps P (
            reads (λ attempts. content_of name (attempts id)) >>= λ old.
            publish_if_new h id name bytes old)
    unfolding ◌>>=◌ reads writes throw
    publish-keeps id name bytes may = record {
      run = λ w p. go w (content_of name (w.disk id)) refl p;
    }
      where
        go :
            (w : World S Attempts) (old : Option (List ℕ))
            → content_of name (w.disk id) ≡ old
            → P w
            → P (publish_if_new h id name bytes old w).1
        go w none missing p = stable.wrote w id name bytes missing may p
        go w (some bytes) there p = p

    mark-keeps :
        (id : String) (marker : Marker) (there : Bool) → Keeps P (mark_if_new h id marker there)
    mark-keeps id marker true = Keeps-pure _
    mark-keeps id marker false =
        Keeps-bind _ _ (Keeps-writes _ (λ w. stable.marked w id marker)) (λ _. Keeps-pure _)

    pub touch_create_once-keeps :
        (id : String) (marker : Marker) → Keeps P (touch_create_once h id marker)
    unfolding touch_create_once
    touch_create_once-keeps id marker =
        search (keeps_rules, guarded-keeps, Keeps-system stable.blind, stored_or-keeps, mark-keeps)
          depth 9

    store-keeps :
        (id : String) (name : RecordName) (encoded : Result (List ℕ))
        → ((bytes : List ℕ) → encoded ≡ ok bytes → May name bytes)
        → Keeps P (do
          bytes ← lift encoded
          trouble ← system h.storage
          stored_or h trouble
          old ← reads (λ attempts. content_of name (attempts id))
          publish_if_new h id name bytes old)
    unfolding ◌>>=◌ lift
    store-keeps id name (err e) may = record { run = λ w p. p }
    store-keeps id name (ok bytes) may = record { run = λ w p. inside.run w p }
      where
        inside : Keeps P (do
          trouble ← system h.storage
          stored_or h trouble
          old ← reads (λ attempts. content_of name (attempts id))
          publish_if_new h id name bytes old)
        inside = Keeps-bind _ _ (Keeps-system stable.blind _) λ trouble.
            Keeps-bind _ _ (stored_or-keeps trouble)
              λ _. publish-keeps id name bytes (may bytes refl)

    pub write_create_once-keeps :
        (id : String) (name : RecordName) (payload : Fields)
        → ((bytes : List ℕ) → encode_record h.codec payload ≡ ok bytes → May name bytes)
        → Keeps P (write_create_once h id name payload)
    unfolding write_create_once
    write_create_once-keeps id name payload may =
        guarded-keeps _ (store-keeps id name (encode_record h.codec payload) may)
