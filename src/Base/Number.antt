-- ===== src/Base/Number.antt =====
-- `int(text)` for the ASCII digits: blanks around it, a sign, and single underscores between digits.
use Prim.Native.Nat.{ℕ, zero, suc, ◌+◌, ◌-◌, ◌*◌}
use Prim.Native.String.{String}
use mathlib.Core.Bool.{Bool, true, false, ◌&&◌}
use mathlib.Core.Option.{Option, none, some}
use mathlib.Core.List.{List, [], ◌∷◌}
use package.blendersessiond.Base.Tests.{◌==◌, if◌then◌else◌}
use package.blendersessiond.Base.Text.{codes, is_digit}
use package.blendersessiond.Base.Split.{strip}
use package.blendersessiond.Base.Int.{ℤ, pos, negsuc}

-- `after_digit` is that the character before was a digit.
unfoldable pub digits_value : Bool → ℕ → List ℕ → Option ℕ
digits_value after_digit n [] = if after_digit then some n else none
digits_value after_digit n (c ∷ cs) =
    let digit = digits_value true (n * 10 + (c - b'0')) cs in
    let gap = digits_value false n cs in
    if is_digit c then digit else if after_digit && c == b'_' then gap else none

abbrev negated : Option ℕ → Option ℤ
negated none = none
negated (some zero) = some (pos 0)
negated (some (suc n)) = some (negsuc n)

abbrev unsigned : Option ℕ → Option ℤ
unsigned none = none
unsigned (some n) = some (pos n)

unfoldable pub int_of : List ℕ → Option ℤ
int_of [] = none
int_of (c ∷ cs) =
    if c == b'-'
    then negated (digits_value false 0 cs)
    else if c == b'+'
    then unsigned (digits_value false 0 cs)
    else unsigned (digits_value false 0 (c ∷ cs))

-- `none` is a `ValueError`.
unfoldable pub python_int : String → Option ℤ
unfolding int_of digits_value strip
python_int text = int_of (codes (strip text))
