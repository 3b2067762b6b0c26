-- ===== src/Base/Text.antt =====
-- Texts: their code points, decimal numerals, and the character classes of the program's patterns.
use Prim.Native.Nat.{ℕ, zero, suc, ◌+◌, ◌/◌, ◌%◌, ◌<◌, compare, Ordering}
use Prim.Native.Char.{Char, char, code, IsScalar}
use Prim.Native.String.{String, ◌++◌ as ◌<>◌}
use mathlib.Core.Path.{◌≡◌}
use mathlib.Core.Bool.{Bool, ◌&&◌, ◌||◌}
use mathlib.Core.Logic.{dite}
use mathlib.Core.List.{List, [], ◌∷◌}
use native.Mathlib.Omega.{arith}
use native.Mathlib.Decide.{dec_lt}
use package.blendersessiond.Base.Tests.{ltb, leb, ◌==◌, if◌then◌else◌}

-- The code points of a text: its bytes, if it is ASCII.
abbrev pub codes : String → List ℕ
codes String.[] = []
codes (String.◌∷◌ c s) = code c ∷ codes s

-- `[A-Za-z]`, `[0-9]`, `[a-f]`
abbrev pub is_letter : ℕ → Bool
is_letter c = (leb b'A' c && leb c b'Z') || (leb b'a' c && leb c b'z')

abbrev pub is_digit : ℕ → Bool
is_digit c = leb b'0' c && leb c b'9'

abbrev pub is_alnum : ℕ → Bool
is_alnum c = is_letter c || is_digit c

-- `[0-9a-f]`
abbrev pub is_lower_hex : ℕ → Bool
is_lower_hex c = is_digit c || (leb b'a' c && leb c b'f')

-- `[A-Za-z0-9_-]`
abbrev pub is_url_safe : ℕ → Bool
is_url_safe c = is_alnum c || (c == b'_' || c == b'-')

IsScalar_of_lt : (n : ℕ) → compare n 55296 ≡ Ordering.lt → IsScalar n
IsScalar_of_lt n h = rw h tt

lt_compare : (n : ℕ) → n < 128 → compare n 55296 ≡ Ordering.lt
lt_compare n h = ground arith

-- The ASCII character of a number below 128; "?" stands for the others, and no caller asks for one.
unfoldable pub ascii : ℕ → Char
unfolding dec_lt IsScalar_of_lt lt_compare
ascii n = dite (dec_lt n 128) (λ h. char n (IsScalar_of_lt n (lt_compare n h))) (λ _. "?")

pub code-ascii : (n : ℕ) → n < 128 → code (ascii n) ≡ n
unfolding ascii
code-ascii n h = ground arith

unfoldable pub of_ascii : List ℕ → String
of_ascii [] = ""
of_ascii (c ∷ cs) = String.◌∷◌ (ascii c) (of_ascii cs)

abbrev one : ℕ → String
one n = String.◌∷◌ (ascii n) String.[]

-- Decimal numerals, `str(n)`; `n + 1` rounds are enough.
show_fuel : ℕ → ℕ → String
show_fuel zero n = ""
show_fuel (suc f) n =
    let front = show_fuel f (n / 10) in
    if ltb n 10 then one (b'0' + n) else front <> one (b'0' + n % 10)

unfoldable pub show : ℕ → String
unfolding show_fuel ascii
show n = show_fuel (suc n) n
