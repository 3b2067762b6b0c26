-- ===== src/Setup/Drain.antt =====
-- `WindowsSetupProcess._drain` and `_valid_utf8_prefix` of
-- src/blendersessiond/windows_setup_process.py: the output of a process, cut at 24 KiB and at a
-- character.
use mathlib.Core.List.{append-nil, append_assoc}
use blendersessiond.Base.{
  ◌≡◌, refl, sym, ap, arith, ℕ, zero, suc, ◌+◌, ◌-◌, String, Bool, true, false, ◌||◌, List, [], ◌∷◌,
  ◌++◌, ltb, length, length-append,
}
use blendersessiond.Exec.{Result, ok, err, value_error}
use blendersessiond.Setup.Codec.{max_output_bytes}

-- What the reads of a pipe give: chunks, until it is closed or fails.
pub data Reads : Type 0 where
  chunk : List ℕ → Reads → Reads
  closed failed : Reads

-- `content.decode("utf-8", errors="strict")`: the text, or `error.start`.
pub data Strict : Type 0 where
  decoded : String → Strict
  undecodable : ℕ → Strict

-- `bytes[:n]`
unfoldable pub take : {A : Type 0} → ℕ → List A → List A
take zero xs = []
take (suc n) [] = []
take (suc n) (x ∷ xs) = x ∷ take n xs

-- The loop over the reads, for a limit.
unfoldable pub drain_from : ℕ → List ℕ → Bool → Reads → List ℕ × Bool
drain_from limit collected truncated closed = (collected, truncated)
drain_from limit collected truncated failed = (collected, true)
drain_from limit collected truncated (chunk bytes rest) =
    let remaining = limit - length collected in
    drain_from limit (collected ++ take remaining bytes) (truncated || ltb remaining (length bytes))
      rest

unfoldable pub drain : Reads → List ℕ × Bool
drain reads = drain_from max_output_bytes [] false reads

abbrev prefix_text : Strict → Result String
prefix_text (decoded s) = ok s
prefix_text (undecodable start) = err (value_error "invalid prefix")

-- The text of the valid prefix; output that is complete must be valid.
unfoldable pub valid_utf8_prefix : (List ℕ → Strict) → List ℕ → Bool → Strict → Result String
valid_utf8_prefix strict content truncated (decoded s) = ok s
valid_utf8_prefix strict content false (undecodable start) = err (value_error "invalid output")
valid_utf8_prefix strict content true (undecodable start) =
    prefix_text (strict (take start content))

abbrev kept : Bool → Result String → Result (String × Bool)
kept truncated (ok s) = ok (s, truncated)
kept truncated (err e) = err e

-- An output as the terminal record has it: its text, and whether it is truncated.
unfoldable pub output_of : (List ℕ → Strict) → Reads → Result (String × Bool)
output_of strict reads =
    let (content, truncated) = drain reads in
    kept truncated (valid_utf8_prefix strict content truncated (strict content))

-- All that was read, and whether the pipe failed.
unfoldable pub contents : Reads → List ℕ
contents closed = []
contents failed = []
contents (chunk bytes rest) = bytes ++ contents rest

unfoldable pub broke_off : Reads → Bool
broke_off closed = false
broke_off failed = true
broke_off (chunk bytes rest) = broke_off rest

take_nil : {A : Type 0} (n : ℕ) → take {A = A} n [] ≡ []
unfolding take
take_nil zero = refl
take_nil (suc n) = refl

nothing_left : (k : ℕ) → zero - k ≡ zero
nothing_left k = omega arith

all_left : (n : ℕ) → n - 0 ≡ n
all_left n = omega arith

less : (n k : ℕ) → suc n - suc k ≡ n - k
less n k = omega arith

take-append :
    {A : Type 0} (n : ℕ) (xs ys : List A) → take n (xs ++ ys) ≡ take n xs ++ take (n - length xs) ys
unfolding take
take-append {A = A} n [] ys = rw (take_nil {A = A} n, all_left n) refl
take-append zero (x ∷ xs) ys = rw (nothing_left (suc (length xs))) refl
take-append (suc n) (x ∷ xs) ys = rw (less n (length xs)) (ap (λ zs. x ∷ zs) (take-append n xs ys))

remaining-take : {A : Type 0} (n : ℕ) (xs : List A) → n - length (take n xs) ≡ n - length xs
unfolding take
remaining-take zero xs = omega arith
remaining-take (suc n) [] = refl
remaining-take (suc n) (x ∷ xs) = omega (arith, remaining-take n xs)

exceeds : (n a b : ℕ) → (ltb n a || ltb (n - a) b) ≡ ltb n (a + b)
exceeds n a b = ground arith

module _ (limit : ℕ) where
  drain_from-contents :
      (sofar : List ℕ) (reads : Reads)
      → drain_from limit (take limit sofar) (ltb limit (length sofar)) reads ≡ (
        take limit (sofar ++ contents reads),
        broke_off reads || ltb limit (length (sofar ++ contents reads)),
      )
  unfolding drain_from contents broke_off
  drain_from-contents sofar closed = rw (append-nil sofar) refl
  drain_from-contents sofar failed = rw (append-nil sofar) refl
  drain_from-contents sofar (chunk bytes rest) =
      rw
        (
          remaining-take limit sofar,
          sym (take-append limit sofar bytes),
          exceeds limit (length sofar) (length bytes),
          sym (length-append sofar bytes),
        )
        (rw (sym (append_assoc sofar bytes (contents rest)))
          (drain_from-contents (sofar ++ bytes) rest))

-- However the output of a process is split into reads, what is kept is its first 24576 bytes, and it
-- counts as truncated exactly if the pipe failed or there was more.
pub drain-contents :
    (reads : Reads)
    → drain reads ≡ (
      take max_output_bytes (contents reads),
      broke_off reads || ltb max_output_bytes (length (contents reads)),
    )
unfolding drain take
drain-contents reads = drain_from-contents max_output_bytes [] reads
