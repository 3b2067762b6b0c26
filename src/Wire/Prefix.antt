-- ===== src/Wire/Prefix.antt =====
-- A text that arrives in parts is never taken for invalid UTF-8 while it is incomplete.
use blendersessiond.Base.{ℕ, refl, ◌≢◌, List, [], ◌∷◌, ◌++◌, arith}
use blendersessiond.Wire.Utf8.{
  Decoded, invalid, push, Position, boundary, await, Advance, char, go_on, wrong, advance,
  decode_from, decode,
}

push-ne-invalid : (c : ℕ) (d : Decoded) → push c d ≢ invalid → d ≢ invalid
push-ne-invalid c d h e = ground arith

ne-invalid-push : (c : ℕ) (d : Decoded) → d ≢ invalid → push c d ≢ invalid
ne-invalid-push c d h e = ground arith

abbrev next : Advance → List ℕ → Decoded
next a rest = elim a [
  | char c ↦ push c (decode_from boundary rest)
  | go_on q ↦ decode_from q rest
  | wrong ↦ invalid
]

next-append :
    (a : Advance) (xs ys : List ℕ)
    → ((p : Position) → decode_from p (xs ++ ys) ≢ invalid → decode_from p xs ≢ invalid)
    → next a (xs ++ ys) ≢ invalid
    → next a xs ≢ invalid
next-append (char c) xs ys ih h =
    ne-invalid-push c (decode_from boundary xs) (ih boundary (push-ne-invalid c _ h))
next-append (go_on q) xs ys ih h = ih q h
next-append wrong xs ys ih h = absurd (h refl)

decode_from-append :
    (p : Position) (xs ys : List ℕ)
    → decode_from p (xs ++ ys) ≢ invalid
    → decode_from p xs ≢ invalid
unfolding decode_from
decode_from-append boundary [] ys h e = cc
decode_from-append (await lo hi left acc) [] ys h e = cc
decode_from-append boundary (x ∷ xs) ys h e =
    next-append (advance boundary x) xs ys (λ q. decode_from-append q xs ys) h e
decode_from-append (await lo hi left acc) (x ∷ xs) ys h e =
    next-append (advance (await lo hi left acc) x) xs ys (λ q. decode_from-append q xs ys) h e

-- A beginning of bytes that do not decode to `invalid` does not decode to `invalid` either.
pub decode-append : (xs ys : List ℕ) → decode (xs ++ ys) ≢ invalid → decode xs ≢ invalid
unfolding decode
decode-append = decode_from-append boundary
