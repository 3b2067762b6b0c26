-- ===== src/Sessions/Component.antt =====
-- A Session Name and its directory's name determine each other, and sort alike.
use Prim.Native.Char.{Char, code}
use text.Mathlib.TextEquality.{Char-path}
use mathlib.Core.Path.{ap₂}
use blendersessiond.Base.{
  ℕ, ◌+◌, ◌/◌, ◌%◌, ◌<◌, ◌≡◌, refl, ap, String, Bool, true, false, ◌&&◌, ◌||◌, some, List, [], ◌∷◌,
  ◌==◌, ltb, ltb→lt, codes, ascii, of_ascii, code-ascii, all, &&-true, arith, if◌then◌else◌,
}
use blendersessiond.Exec.{ok}
use blendersessiond.Sessions.Name.{
  is_name_char, matches_name, validate_session_name, hex_digit, hex, hex_value, fromhex,
  decode_ascii, component_name, validated,
}

code-hex_digit : (n : ℕ) → n < 16 → code (hex_digit n) ≡ (if ltb n 10 then 48 + n else 87 + n)
unfolding hex_digit
code-hex_digit n h = code-ascii _ (ground arith)

hex_value-hex_digit : (n : ℕ) → n < 16 → hex_value (code (hex_digit n)) ≡ some n
unfolding hex_value
hex_value-hex_digit n h = rw (code-hex_digit n h) (ground arith)

-- Every character is ASCII.
abbrev pub is_ascii : List ℕ → Bool
is_ascii = all (λ c. ltb c 128)

fromhex-hex : (s : String) → is_ascii (codes s) ≡ true → fromhex (codes (hex s)) ≡ some (codes s)
unfolding hex fromhex
fromhex-hex String.[] h = refl
fromhex-hex (String.◌∷◌ c s) h =
    let small = (&&-true (ltb (code c) 128) (is_ascii (codes s)) h).0 in
    let high : code c / 16 < 16 = omega (arith, ltb→lt (code c) 128 small) in
    let low : code c % 16 < 16 = omega arith in
    ground (
      arith,
      code-hex_digit (code c / 16) high,
      hex_value-hex_digit (code c / 16) high,
      hex_value-hex_digit (code c % 16) low,
      fromhex-hex s (&&-true (ltb (code c) 128) (is_ascii (codes s)) h).1,
    )

ascii-code : (c : Char) → code c < 128 → ascii (code c) ≡ c
ascii-code c h = Char-path (ascii (code c)) c (code-ascii (code c) h)

of_ascii-codes : (s : String) → is_ascii (codes s) ≡ true → of_ascii (codes s) ≡ s
unfolding of_ascii
of_ascii-codes String.[] h = refl
of_ascii-codes (String.◌∷◌ c s) h =
    let (small, rest) = &&-true (ltb (code c) 128) (is_ascii (codes s)) h in
    ap₂ String.◌∷◌ (ascii-code c (ltb→lt (code c) 128 small)) (of_ascii-codes s rest)

decode_ascii-codes : (s : String) → is_ascii (codes s) ≡ true → decode_ascii (codes s) ≡ some s
unfolding decode_ascii
decode_ascii-codes s h = rw h (ap some (of_ascii-codes s h))

name_char-is_ascii : (cs : List ℕ) → all is_name_char cs ≡ true → is_ascii cs ≡ true
name_char-is_ascii [] h = refl
name_char-is_ascii (c ∷ cs) h = ground (arith, name_char-is_ascii cs)

matches_name-is_ascii : (cs : List ℕ) → matches_name cs ≡ true → is_ascii cs ≡ true
unfolding matches_name
matches_name-is_ascii [] h = ground arith
matches_name-is_ascii (c ∷ cs) h = ground (arith, name_char-is_ascii cs)

pub valid_matches :
    (name : String) → validate_session_name name ≡ ok name → matches_name (codes name) ≡ true
unfolding validate_session_name
valid_matches name h = ground arith

-- The directory name of a valid Session Name stands for that name.
pub component_name-hex :
    (name : String) → validate_session_name name ≡ ok name → component_name (hex name) ≡ some name
unfolding component_name
component_name-hex name h =
    let plain = matches_name-is_ascii (codes name) (valid_matches name h) in
    rw (fromhex-hex name plain, decode_ascii-codes name plain) (rw (h, validated))

-- Texts by their characters' numbers, as Python sorts them.
abbrev pub lex_leb : List ℕ → List ℕ → Bool
lex_leb [] bs = true
lex_leb (a ∷ as') [] = false
lex_leb (a ∷ as') (b ∷ bs) = ltb a b || (a == b && lex_leb as' bs)

hex_digit_order :
    (m n : ℕ)
    → m < 16
    → n < 16
    → (ltb (code (hex_digit m)) (code (hex_digit n)) ≡ ltb m n)
      × ((code (hex_digit m) == code (hex_digit n)) ≡ (m == n))
hex_digit_order m n hm hn = ground (arith, code-hex_digit m hm, code-hex_digit n hn)

two_digits :
    (c d : ℕ) (rest : Bool)
    → (ltb (c / 16) (d / 16)
        || (c / 16 == d / 16 && (ltb (c % 16) (d % 16) || (c % 16 == d % 16 && rest))))
      ≡ (ltb c d || (c == d && rest))
two_digits c d rest = ground arith

digit_bounds : (c : ℕ) → c < 128 → (c / 16 < 16) × (c % 16 < 16)
digit_bounds c h = omega arith

-- For ASCII names the directories sort as the names do.
pub lex_leb-hex :
    (s t : String)
    → is_ascii (codes s) ≡ true
    → is_ascii (codes t) ≡ true
    → lex_leb (codes (hex s)) (codes (hex t)) ≡ lex_leb (codes s) (codes t)
unfolding hex
lex_leb-hex String.[] t hs ht = refl
lex_leb-hex (String.◌∷◌ c s) String.[] hs ht = refl
lex_leb-hex (String.◌∷◌ c s) (String.◌∷◌ d t) hs ht =
    let (cs, ss) = &&-true (ltb (code c) 128) (is_ascii (codes s)) hs in
    let (ds, ts) = &&-true (ltb (code d) 128) (is_ascii (codes t)) ht in
    let (ch, cl) = digit_bounds (code c) (ltb→lt (code c) 128 cs) in
    let (dh, dl) = digit_bounds (code d) (ltb→lt (code d) 128 ds) in
    let high = hex_digit_order (code c / 16) (code d / 16) ch dh in
    let low = hex_digit_order (code c % 16) (code d % 16) cl dl in
    rw (lex_leb-hex s t ss ts)
      (ground (arith, high, low, two_digits (code c) (code d) (lex_leb (codes s) (codes t))))
