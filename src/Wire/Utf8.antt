-- ===== src/Wire/Utf8.antt =====
-- `payload.decode("utf-8")` of src/blendersessiond/wire.py's `_receive_json`, with the reason of a
-- failure: `truncated` is Python's "unexpected end of data", `invalid` is any other reason.
use blendersessiond.Base.{
  ℕ, zero, suc, ◌+◌, ◌-◌, ◌*◌, Bool, ◌&&◌, List, [], ◌∷◌, leb, ◌==◌, if◌then◌else◌,
}

pub data Decoded : Type 0 where
  text : List ℕ → Decoded
  truncated invalid : Decoded

abbrev pub push : ℕ → Decoded → Decoded
push c (text cs) = text (c ∷ cs)
push c truncated = truncated
push c invalid = invalid

-- Between two characters, or inside one: `await lo hi left acc` wants a byte from `lo` to `hi` and
-- `left` bytes after it, and `acc` is the character's number so far.
pub data Position : Type 0 where
  boundary : Position
  await : ℕ → ℕ → ℕ → ℕ → Position

-- What one byte does: it ends a character, it goes on with one, or it is wrong.
pub data Advance : Type 0 where
  char : ℕ → Advance
  go_on : Position → Advance
  wrong : Advance

abbrev in_range : ℕ → ℕ → ℕ → Bool
in_range lo hi b = leb lo b && leb b hi

-- A lead byte. The second byte's range excludes overlong forms, surrogates and what lies above
-- U+10FFFF.
lead : ℕ → Advance
lead b =
    if leb b 0x7f
    then char b
    else if in_range 0xc2 0xdf b
    then go_on (await 0x80 0xbf 0 (b - 0xc0))
    else if in_range 0xe0 0xef b
    then go_on
        (await (if b == 0xe0 then 0xa0 else 0x80) (if b == 0xed then 0x9f else 0xbf) 1 (b - 0xe0))
    else if in_range 0xf0 0xf4 b
    then go_on
        (await (if b == 0xf0 then 0x90 else 0x80) (if b == 0xf4 then 0x8f else 0xbf) 2 (b - 0xf0))
    else wrong

continuation : ℕ → ℕ → ℕ → Advance
continuation b zero acc = char (acc * 64 + (b - 0x80))
continuation b (suc left) acc = go_on (await 0x80 0xbf left (acc * 64 + (b - 0x80)))

unfoldable pub advance : Position → ℕ → Advance
unfolding lead continuation
advance boundary b = lead b
advance (await lo hi left acc) b = if in_range lo hi b then continuation b left acc else wrong

unfoldable pub decode_from : Position → List ℕ → Decoded
decode_from boundary [] = text []
decode_from (await _ _ _ _) [] = truncated
decode_from p (b ∷ rest) = elim (advance p b) [
  | char c ↦ push c (decode_from boundary rest)
  | go_on q ↦ decode_from q rest
  | wrong ↦ invalid
]

unfoldable pub decode : List ℕ → Decoded
unfolding decode_from advance
decode = decode_from boundary
