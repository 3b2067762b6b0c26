-- ===== src/Base/Split.antt =====
-- `str.strip`, `str.split` and `str.rsplit(c, 1)` on texts.
use Prim.Native.Nat.{ℕ}
use Prim.Native.Char.{code}
use Prim.Native.String.{String}
use mathlib.Core.Bool.{Bool, ◌&&◌, ◌||◌}
use mathlib.Core.Option.{Option, none, some}
use mathlib.Core.List.{List, [], ◌∷◌}
use text.Mathlib.Text.{◌==◌ as str_eq}
use package.blendersessiond.Base.Tests.{leb, ◌==◌, if◌then◌else◌}

-- The characters that Python takes for white space.
unfoldable pub is_space : ℕ → Bool
is_space c =
    (leb 9 c && leb c 13)
    || ((leb 28 c && leb c 32)
        || (c == 0x85
            || (c == 0xa0
                || (c == 0x1680
                    || ((leb 0x2000 c && leb c 0x200a)
                        || (c == 0x2028
                            || (c == 0x2029 || (c == 0x202f || (c == 0x205f || c == 0x3000)))))))))

unfoldable pub trim_start : String → String
trim_start String.[] = ""
trim_start (String.◌∷◌ c s) =
    let rest = trim_start s in if is_space (code c) then rest else String.◌∷◌ c s

unfoldable pub trim_end : String → String
trim_end String.[] = ""
trim_end (String.◌∷◌ c s) =
    let rest = trim_end s in if is_space (code c) && str_eq rest "" then "" else String.◌∷◌ c rest

unfoldable pub strip : String → String
unfolding trim_start trim_end is_space
strip s = trim_end (trim_start s)

abbrev flush : String → List String → List String
flush word words = if str_eq word "" then words else word ∷ words

-- The word that the text begins with, and the words behind it.
unfoldable pub span : String → String × List String
span String.[] = ("", [])
span (String.◌∷◌ c s) =
    let (word, words) = span s in
    if is_space (code c) then ("", flush word words) else (String.◌∷◌ c word, words)

unfoldable pub split : String → List String
unfolding span is_space
split s = let (word, words) = span s in flush word words

-- `s.rsplit(c, 1)[1]`, for a text that holds the character: what stands behind its last place.
unfoldable pub after_last : ℕ → String → Option String
after_last k String.[] = none
after_last k (String.◌∷◌ c s) = elim (after_last k s) [
  | some rest ↦ some rest
  | none ↦ if code c == k then some s else none
]
