-- ===== src/Discovery/Version.antt =====
-- The version that `blender --version` prints, as src/blendersessiond/discovery.py reads it:
-- `^Blender\s+(\d+(?:\.\d+){1,2})\b`, in any case, at the start of any line. Digits, letters and
-- word boundaries are those of ASCII.
use blendersessiond.Base.{
  ℕ, ◌+◌, ◌-◌, ◌*◌, Bool, true, not, ◌&&◌, ◌||◌, Option, none, some, List, [], ◌∷◌, ◌==◌, leb, ltb,
  codes, is_digit, is_alnum, is_space, String, ◌<>◌, of_ascii, if◌then◌else◌,
}

-- The digits that the text begins with, and what stands behind them.
unfoldable pub digit_run : List ℕ → List ℕ × List ℕ
digit_run [] = ([], [])
digit_run (c ∷ cs) =
    let (digits, rest) = digit_run cs in if is_digit c then (c ∷ digits, rest) else ([], c ∷ cs)

-- `\d+`
pub record Numeral : Type 0 where
  pub digits : List ℕ
  pub behind : List ℕ

numeral_of : List ℕ × List ℕ → Option Numeral
numeral_of ([], rest) = none
numeral_of (d ∷ ds, rest) = some (record { digits = d ∷ ds; behind = rest })

unfoldable pub numeral : List ℕ → Option Numeral
unfolding digit_run numeral_of
numeral cs = numeral_of (digit_run cs)

-- `.` and a numeral.
unfoldable pub dotted : List ℕ → Option Numeral
unfolding numeral
dotted [] = none
dotted (c ∷ cs) = if c == b'.' then numeral cs else none

-- `\b` behind a digit.
unfoldable pub at_boundary : List ℕ → Bool
at_boundary [] = true
at_boundary (c ∷ cs) = not (is_alnum c || c == b'_')

-- The digits of a version's parts; the third may be missing.
pub record Version : Type 0 where
  pub major : List ℕ
  pub minor : List ℕ
  pub patch : Option (List ℕ)

two_parts : List ℕ → Numeral → Option Version
two_parts major minor =
    if at_boundary minor.behind
    then some (record { major = major; minor = minor.digits; patch = none })
    else none

-- A third part that ends inside a word is given back: the dot in front of it is a boundary.
three_parts : List ℕ → Numeral → Option Numeral → Option Version
three_parts major minor none = two_parts major minor
three_parts major minor (some patch) =
    if at_boundary patch.behind
    then some (record { major = major; minor = minor.digits; patch = some patch.digits })
    else two_parts major minor

with_minor : List ℕ → Option Numeral → Option Version
with_minor major none = none
with_minor major (some minor) = three_parts major minor (dotted minor.behind)

with_major : Option Numeral → Option Version
with_major none = none
with_major (some major) = with_minor major.digits (dotted major.behind)

skip_blanks : List ℕ → List ℕ
skip_blanks [] = []
skip_blanks (c ∷ cs) = let rest = skip_blanks cs in if is_space c then rest else c ∷ cs

version_behind_blank : List ℕ → Option Version
version_behind_blank [] = none
version_behind_blank (c ∷ cs) = if is_space c then with_major (numeral (skip_blanks cs)) else none

lower : ℕ → ℕ
lower c = if leb b'A' c && leb c b'Z' then c + 32 else c

behind_word : List ℕ → List ℕ → Option (List ℕ)
behind_word [] cs = some cs
behind_word (p ∷ ps) [] = none
behind_word (p ∷ ps) (c ∷ cs) = let rest = behind_word ps cs in if p == lower c then rest else none

version_behind : Option (List ℕ) → Option Version
version_behind none = none
version_behind (some cs) = version_behind_blank cs

version_at : List ℕ → Option Version
version_at cs = version_behind (behind_word (codes "blender") cs)

-- `search`: the first place, at the start or behind a line feed.
search_from : Bool → List ℕ → Option Version
search_from line_start [] = none
search_from line_start (c ∷ cs) =
    let later = search_from (c == 10) cs in
    elim (if line_start then version_at (c ∷ cs) else none) [ some v ↦ some v | none ↦ later ]

unfoldable pub search_version : List ℕ → Option Version
unfolding search_from version_at version_behind version_behind_blank behind_word lower skip_blanks
    with_major with_minor three_parts two_parts dotted at_boundary is_space
search_version = search_from true

-- `int(part)`
value_from : ℕ → List ℕ → ℕ
value_from n [] = n
value_from n (c ∷ cs) = value_from (n * 10 + (c - b'0')) cs

or_zero : Option (List ℕ) → ℕ
or_zero none = 0
or_zero (some digits) = value_from 0 digits

-- `version_key`, padded with zeros.
unfoldable pub version_key : Version → ℕ × ℕ × ℕ
unfolding value_from or_zero
version_key v = (value_from 0 v.major, value_from 0 v.minor, or_zero v.patch)

patch_text : Option (List ℕ) → String
patch_text none = ""
patch_text (some digits) = "." <> of_ascii digits

-- `match.group(1)`
unfoldable pub version_text : Version → String
unfolding of_ascii patch_text
version_text v = of_ascii v.major <> "." <> of_ascii v.minor <> patch_text v.patch

-- Python's order of tuples.
unfoldable pub key_lt : ℕ × ℕ × ℕ → ℕ × ℕ × ℕ → Bool
key_lt (a, b, c) (x, y, z) = ltb a x || (a == x && (ltb b y || (b == y && ltb c z)))
