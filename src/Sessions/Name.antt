-- ===== src/Sessions/Name.antt =====
-- Session Names, Session identities and directory names in src/blendersessiond/sessions.py.
use Prim.Native.Char.{Char, code}
use blendersessiond.Base.{
  ℕ, ◌+◌, ◌-◌, ◌*◌, ◌/◌, ◌%◌, String, ◌<>◌, Bool, false, not, ◌&&◌, ◌||◌, Option, none, some, List,
  [], ◌∷◌, ◌==◌, ltb, leb, str_in, codes, is_alnum, is_digit, is_url_safe, ascii, of_ascii, length,
  all, if◌then◌else◌,
}
use blendersessiond.Exec.{Result, ok, err, value_error}

-- `[A-Za-z0-9_.-]`
abbrev pub is_name_char : ℕ → Bool
is_name_char c = is_alnum c || (c == b'_' || (c == b'.' || c == b'-'))

-- `^[A-Za-z0-9][A-Za-z0-9_.-]{0,63}$`
unfoldable pub matches_name : List ℕ → Bool
matches_name [] = false
matches_name (c ∷ cs) = is_alnum c && (all is_name_char cs && leb (length cs) 63)

unfoldable pub validate_session_name : String → Result String
unfolding matches_name
validate_session_name name =
    if not (matches_name (codes name)) || str_in name ("." ∷ ".." ∷ [])
    then err (
        value_error (
          "Session Name must be 1-64 characters using letters, numbers, periods, underscores, or "
          <> "hyphens, and must start with a letter or number."))
    else ok name

-- The text behind a prefix.
unfoldable pub behind : List ℕ → List ℕ → Option (List ℕ)
behind [] cs = some cs
behind (p ∷ ps) [] = none
behind (p ∷ ps) (c ∷ cs) = let rest = behind ps cs in if p == c then rest else none

abbrev pub url_safe_between : ℕ → ℕ → Option (List ℕ) → Bool
url_safe_between lo hi none = false
url_safe_between lo hi (some cs) = all is_url_safe cs && (leb lo (length cs) && leb (length cs) hi)

-- `^bss_[A-Za-z0-9_-]{32,80}$`
unfoldable pub matches_session_id : List ℕ → Bool
unfolding behind
matches_session_id cs = url_safe_between 32 80 (behind (codes "bss_") cs)

unfoldable pub validate_session_id : String → Result String
unfolding matches_session_id
validate_session_id session_id =
    if matches_session_id (codes session_id)
    then ok session_id
    else err (
        value_error (
          "Session ID must be an opaque bss_ identity returned by blendersessiond start or "
          <> "status."))

-- One hexadecimal digit.
unfoldable pub hex_digit : ℕ → Char
hex_digit n = ascii (if ltb n 10 then 48 + n else 87 + n)

-- `validated.encode("ascii").hex()`
unfoldable pub hex : String → String
unfolding hex_digit
hex String.[] = ""
hex (String.◌∷◌ c s) =
    String.◌∷◌ (hex_digit (code c / 16)) (String.◌∷◌ (hex_digit (code c % 16)) (hex s))

unfoldable pub hex_value : ℕ → Option ℕ
hex_value c =
    if is_digit c
    then some (c - 48)
    else if leb b'a' c && leb c b'f'
    then some (c - 87)
    else if leb b'A' c && leb c b'F'
    then some (c - 55)
    else none

-- The blanks that `bytes.fromhex` skips between two bytes.
is_hex_blank : ℕ → Bool
is_hex_blank c = (leb 9 c && leb c 13) || c == 32

abbrev push_byte : Option ℕ → Option ℕ → Option (List ℕ) → Option (List ℕ)
push_byte (some hi) (some lo) (some bytes) = some ((hi * 16 + lo) ∷ bytes)
push_byte _ _ _ = none

-- `bytes.fromhex`, where `none` is a `ValueError`.
unfoldable pub fromhex : List ℕ → Option (List ℕ)
unfolding hex_value is_hex_blank
fromhex [] = some []
fromhex (c ∷ []) = if is_hex_blank c then some [] else none
fromhex (c ∷ d ∷ rest) =
    let later = fromhex (d ∷ rest) in
    let bytes = push_byte (hex_value c) (hex_value d) (fromhex rest) in
    if is_hex_blank c then later else bytes

-- `bytes.decode("ascii")`, where `none` is a `UnicodeDecodeError`.
unfoldable pub decode_ascii : List ℕ → Option String
unfolding of_ascii
decode_ascii bytes = if all (λ b. ltb b 128) bytes then some (of_ascii bytes) else none

abbrev pub decoded : Option (List ℕ) → Option String
decoded none = none
decoded (some bytes) = decode_ascii bytes

abbrev pub validated : Option String → Option String
validated none = none
validated (some name) = elim (validate_session_name name) [ ok n ↦ some n | err e ↦ none ]

-- The Session Name that a state directory's name stands for, if it stands for a valid one.
unfoldable pub component_name : String → Option String
unfolding fromhex decode_ascii validate_session_name
component_name component = validated (decoded (fromhex (codes component)))
