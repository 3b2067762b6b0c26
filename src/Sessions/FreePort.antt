-- ===== src/Sessions/FreePort.antt =====
-- The port that a new Session gets in src/blendersessiond/sessions.py is free, and the first free one.
use blendersessiond.Base.{
  ℕ, zero, suc, ◌≤◌, ◌<◌, ◌≡◌, refl, ℤ, pos, negsuc, true, false, List, [], ◌∷◌, length, leb,
  Bool-cases, inl, inr, arith, ℕ_discrete, if◌then◌else◌,
}
use blendersessiond.Sessions.Ports.{occupies, first_free}

-- How many of the ports are at least `n`.
at_least : ℕ → List ℤ → ℕ
at_least n [] = 0
at_least n (pos p ∷ ps) = if leb n p then suc (at_least n ps) else at_least n ps
at_least n (negsuc p ∷ ps) = at_least n ps

at_least-length : (n : ℕ) (ps : List ℤ) → at_least n ps ≤ length ps
unfolding at_least
at_least-length n [] = omega arith
at_least-length n (pos p ∷ ps) = ground (arith, at_least-length n ps)
at_least-length n (negsuc p ∷ ps) = omega (arith, at_least-length n ps)

at_least-suc : (n : ℕ) (ps : List ℤ) → at_least (suc n) ps ≤ at_least n ps
unfolding at_least
at_least-suc n [] = omega arith
at_least-suc n (pos p ∷ ps) = ground (arith, at_least-suc n ps)
at_least-suc n (negsuc p ∷ ps) = at_least-suc n ps

at_least_occupied :
    (n : ℕ) (ps : List ℤ) → occupies (pos n) ps ≡ true → at_least (suc n) ps < at_least n ps
unfolding at_least
at_least_occupied n [] h = ground arith
at_least_occupied n (pos p ∷ ps) h = ground (arith, at_least_occupied n ps, at_least-suc n ps)
at_least_occupied n (negsuc p ∷ ps) h = ground (arith, at_least_occupied n ps)

-- The first free port at `n` or above.
pub record IsFirstFree (n : ℕ) (occupied : List ℤ) (port : ℤ) : Type 0 where
  pub number : ℕ
  pub is_number : port ≡ pos number
  pub above : n ≤ number
  pub free : occupies (pos number) occupied ≡ false
  pub least : (m : ℕ) → n ≤ m → m < number → occupies (pos m) occupied ≡ true

first_free_from :
    (fuel n : ℕ) (occupied : List ℤ)
    → at_least n occupied < fuel
    → IsFirstFree n occupied (first_free fuel (pos n) occupied)
unfolding first_free
first_free_from zero n occupied h = elim h [ ]
first_free_from (suc fuel) n occupied h = elim (Bool-cases (occupies (pos n) occupied)) [
  | inl busy ↦
      let rest =
        first_free_from fuel (suc n) occupied (omega (arith, at_least_occupied n occupied busy)) in
      rw busy (record {
        number = rest.number;
        is_number = rest.is_number;
        above = omega arith;
        free = rest.free;
        least = λ m lo hi. elim (ℕ_discrete n m) [
          | yes same ↦ rw (← same) busy
          | no other ↦ rest.least m (omega arith) hi
        ];
      })
  | inr idle ↦ rw idle (record {
    number = n;
    is_number = refl;
    above = omega arith;
    free = idle;
    least = λ m lo hi. absurd (omega arith);
  })
]

-- The fuel of the loop is enough: its result is the first port from `n` on that is not occupied.
pub first_free-IsFirstFree :
    (n : ℕ) (occupied : List ℤ)
    → IsFirstFree n occupied (first_free (suc (length occupied)) (pos n) occupied)
first_free-IsFirstFree n occupied =
    first_free_from (suc (length occupied)) n occupied (omega (arith, at_least-length n occupied))
