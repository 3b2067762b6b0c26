-- ===== src/Wire/Chunks.antt =====
-- The response does not depend on how TCP splits it into chunks.
use mathlib.Core.List.{append-nil, append_assoc}
use blendersessiond.Base.{ℕ, ◌≡◌, refl, sym, ◌∙◌, ◌≢◌, none, some, List, [], ◌∷◌, ◌++◌}
use blendersessiond.Json.{Json}
use blendersessiond.Exec.{ok}
use blendersessiond.Wire.Utf8.{Decoded, text, truncated, invalid, decode}
use blendersessiond.Wire.Prefix.{decode-append}
use blendersessiond.Wire.Receive.{
  Stream, chunk, Loaded, loaded, no_json, read_on, judge, attempt, receive_json,
}

-- The chunks, each with at least one byte, and then whatever the peer does next.
abbrev pub delivered : List (ℕ × List ℕ) → Stream → Stream
delivered [] rest = rest
delivered ((b, bs) ∷ cs) rest = chunk b bs (delivered cs rest)

abbrev pub bytes : List (ℕ × List ℕ) → List ℕ
bytes [] = []
bytes ((b, bs) ∷ cs) = (b ∷ bs) ++ bytes cs

-- The bytes are a UTF-8 text that `json.loads` takes for `value`, and each shorter text that begins
-- it is a `JSONDecodeError`, as each proper beginning of a JSON object is.
pub record IsMessage (loads : List ℕ → Loaded) (whole : List ℕ) (value : Json) : Type 0 where
  pub characters : List ℕ
  pub decodes : decode whole ≡ text characters
  pub accepted : loads characters ≡ loaded value
  pub minimal :
      (front back cs : List ℕ)
      → front ++ back ≡ whole
      → back ≢ []
      → decode front ≡ text cs
      → loads cs ≡ no_json

module _ (loads : List ℕ → Loaded) (value : Json) where
  attempt_whole :
      (whole : List ℕ) → IsMessage loads whole value → attempt loads whole ≡ some (ok value)
  unfolding attempt
  attempt_whole whole m = rw (m.decodes, attempt) (rw (m.accepted, judge, read_on))

  undecided :
      (front : List ℕ) (d : Decoded)
      → decode front ≡ d
      → d ≢ invalid
      → ((cs : List ℕ) → d ≡ text cs → loads cs ≡ no_json)
      → attempt loads front ≡ none
  unfolding attempt
  undecided front (text cs) e n h = rw (e, attempt) (rw (h cs refl, judge, read_on))
  undecided front truncated e n h = rw (e, attempt)
  undecided front invalid e n h = absurd (n refl)

  attempt_front :
      (front back : List ℕ)
      → IsMessage loads (front ++ back) value
      → back ≢ []
      → attempt loads front ≡ none
  attempt_front front back m ne =
      undecided front (decode front) refl
        (decode-append front back (λ e. text-ne-invalid (sym m.decodes ∙ e)))
        (λ cs e. m.minimal front back cs refl ne e)
    where
      text-ne-invalid : {cs : List ℕ} → text cs ≡ invalid → ⊥
      text-ne-invalid e = cc

  receive_rest :
      (sofar : List ℕ) (c : ℕ × List ℕ) (cs : List (ℕ × List ℕ)) (rest : Stream)
      → IsMessage loads (sofar ++ bytes (c ∷ cs)) value
      → receive_json loads sofar (delivered (c ∷ cs) rest) ≡ ok value
  unfolding receive_json
  receive_rest sofar (b, bs) [] rest m =
      let whole : IsMessage loads (sofar ++ (b ∷ bs)) value = rw append-nil at m in
      rw (attempt_whole (sofar ++ (b ∷ bs)) whole, receive_json)
  receive_rest sofar (b, bs) (c ∷ cs) rest m =
      let later : IsMessage loads ((sofar ++ (b ∷ bs)) ++ bytes (c ∷ cs)) value =
        rw (append_assoc sofar (b ∷ bs) (bytes (c ∷ cs))) m in
      rw (attempt_front (sofar ++ (b ∷ bs)) (bytes (c ∷ cs)) later (λ e. cc), receive_json)
        (receive_rest (sofar ++ (b ∷ bs)) c cs rest later)

  -- A response that is UTF-8 and JSON, and of which no proper beginning is JSON, may be split into
  -- chunks at any byte: whatever the peer does afterwards, `_receive_json` returns its value.
  pub receive_json-delivered :
      (c : ℕ × List ℕ) (cs : List (ℕ × List ℕ)) (rest : Stream)
      → IsMessage loads (bytes (c ∷ cs)) value
      → receive_json loads [] (delivered (c ∷ cs) rest) ≡ ok value
  receive_json-delivered c cs rest m = receive_rest [] c cs rest m
