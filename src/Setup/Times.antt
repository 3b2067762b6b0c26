-- ===== src/Setup/Times.antt =====
-- What src/blendersessiond/setup_owner.py relies on of `hashlib` and `datetime`, and that
-- `_parse_time` reads what `_format_time` writes.
use text.Mathlib.TextLemmas.{nil-append, cons-append}
use blendersessiond.Base.{
  ℕ, String, ◌<>◌, ◌≡◌, refl, ap, ◌∙◌, true, some, List, ◌==◌, codes, all, length, is_lower_hex,
}
use blendersessiond.Json.{str}
use blendersessiond.Exec.{ok}
use blendersessiond.Setup.Codec.{
  Codec, parse_time, format_time, without_last, in_front_of_z, validate_sha256,
}

-- A time in ISO format with the offset of UTC reads as the same time; a digest is 64 lower hex
-- digits.
pub record CodecLaws (c : Codec) : Type 0 where
  pub iso : (t : ℕ) → c.fromisoformat (c.isoformat t <> "+00:00") ≡ some t
  pub hex : (bytes : List ℕ) → all is_lower_hex (codes (c.sha256 bytes)) ≡ true
  pub width : (bytes : List ℕ) → length (codes (c.sha256 bytes)) == 64 ≡ true

unfoldable with_z : String → String
with_z String.[] = "Z"
with_z (String.◌∷◌ c s) = String.◌∷◌ c (with_z s)

with_z_lem : (s : String) → s <> "Z" ≡ with_z s
unfolding with_z
with_z_lem String.[] = nil-append "Z"
with_z_lem (String.◌∷◌ c s) = cons-append c s "Z" ∙ ap (String.◌∷◌ c) (with_z_lem s)

in_front_of_z-with_z : (s : String) → in_front_of_z (codes (with_z s)) ≡ true
unfolding with_z
in_front_of_z-with_z String.[] = refl
in_front_of_z-with_z (String.◌∷◌ c String.[]) = refl
in_front_of_z-with_z (String.◌∷◌ c (String.◌∷◌ d s)) = in_front_of_z-with_z (String.◌∷◌ d s)

without_last-with_z : (s : String) → without_last (with_z s) ≡ s
unfolding without_last with_z
without_last-with_z String.[] = refl
without_last-with_z (String.◌∷◌ c String.[]) = refl
without_last-with_z (String.◌∷◌ c (String.◌∷◌ d s)) =
    ap (String.◌∷◌ c) (without_last-with_z (String.◌∷◌ d s))

module _ (c : Codec) (laws : CodecLaws c) where
  pub parse_time-format_time :
      (t : ℕ) (field : String) → parse_time c (str (format_time c t)) field ≡ ok t
  unfolding parse_time format_time
  parse_time-format_time t field = rw (
    with_z_lem (c.isoformat t),
    in_front_of_z-with_z (c.isoformat t),
    without_last-with_z (c.isoformat t),
    laws.iso t,
  )

  pub validate_sha256-sha256 :
      (bytes : List ℕ) → validate_sha256 (str (c.sha256 bytes)) ≡ ok (c.sha256 bytes)
  unfolding validate_sha256
  validate_sha256-sha256 bytes = rw (laws.hex bytes, laws.width bytes)
